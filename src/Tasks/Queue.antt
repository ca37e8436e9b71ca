-- ===== src/Tasks/Queue.antt =====
-- tasks/tasks.go: `Task`, `NewTask`, `Enqueue` and `Dequeue`. The connection of `OpenWorkDB` is open.
use rdpg_boshrelease.Base.{
  ℕ, zero, suc, String, Bool, Option, none, some, eqb, contains, first, set_where, if◌then◌else◌,
}
use rdpg_boshrelease.World.{
  TaskRow, Db, Error, Result, ok, err, panics, hangs, Action, pure, raise, panic, hang, gets,
  attempt, query, exec_db, ◌>>=◌,
}
use rdpg_boshrelease.Pg.{text}
use rdpg_boshrelease.Instances.{insert_task}

-- `Task`
pub record Task : Type 0 where
  pub id : ℕ
  pub cluster_id : String
  pub node : String
  pub role : String
  pub action : String
  pub task_data : String
  pub ttl : ℕ
  pub node_type : String

-- `NewTask()`
abbrev pub new_task_for_any_node : Task
new_task_for_any_node = record {
  id = 0;
  cluster_id = "";
  node = "*";
  role = "";
  action = "";
  task_data = "";
  ttl = 0;
  node_type = "";
}

-- the row of the INSERT of `Enqueue`
abbrev pub row_of_task : ℕ → Task → TaskRow
row_of_task now t = record {
  id = 0;
  cluster_id = t.cluster_id;
  node = t.node;
  role = t.role;
  action = t.action;
  task_data = t.task_data;
  ttl = t.ttl;
  node_type = t.node_type;
  locked_by = none;
  created_at = now;
  processing_at = none;
}

-- `re.MatchString(err.Error())`
abbrev pub is_taken_key : Error → Bool
is_taken_key e = contains (text e) "tasks_pkey"

abbrev pub enqueue_again : Action → Result (Unit {0}) → Action
enqueue_again again (ok u) = pure tt
enqueue_again again (err e) = if is_taken_key e then again else raise e
enqueue_again again panics = panic
enqueue_again again hangs = hang

-- `t.Enqueue()`: the INSERT again as long as its key is taken. Out of fuel it hangs.
unfoldable pub enqueue : ℕ → Task → Action
enqueue zero t w = (hangs, w)
enqueue (suc fuel) t w =
    (do
      now ← gets (λ v. v.now)
      r ← attempt (exec_db (insert_task (row_of_task now t)))
      enqueue_again (enqueue fuel t) r)
      w

-- UPDATE tasks.tasks SET locked_by, processing_at WHERE id
unfoldable pub lock_task : String → ℕ → ℕ → Db → Db
lock_task my_ip now id d = record d {
  tasks =
      set_where (λ r. eqb r.id id)
        (λ r. record r { locked_by = some my_ip; processing_at = some now }) d.tasks;
}

-- A task that has gone is no error.
abbrev pub lock_known : String → ℕ → Option TaskRow → Action
lock_known my_ip now none = pure tt
lock_known my_ip now (some row) = exec_db (lock_task my_ip now row.id)

-- `t.Dequeue()` on the node with the address `myIP`
unfoldable pub dequeue : String → ℕ → Action
dequeue my_ip id = do
  row ← query (λ w. first (λ r. eqb r.id id) w.db.tasks)
  now ← gets (λ w. w.now)
  lock_known my_ip now row
