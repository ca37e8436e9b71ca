-- ===== src/Tasks/Work.antt =====
-- tasks/work.go: `WorkLock`, `WorkUnlock`, `Work` of a task, and a round of the worker's loop;
-- `isWriteNode` of tasks/consul_helpers.go.
use rdpg_boshrelease.Base.{
  ℕ, zero, suc, String, ◌<>◌, Bool, false, ◌&&◌, ◌||◌, ◌==◌, Option, none, some, List, [], ◌∷◌,
  ◌++◌, eqb, leb, select, set_where, delete_where, is_null, if◌then◌else◌,
}
use rdpg_boshrelease.World.{
  TaskRow, Db, Result, ok, err, panics, hangs, Exec, Action, pure, panic, hang, modify, attempt,
  logged, query, exec_db, sleep, service, lock, unlock, ◌>>=◌, ◌>>◌,
}
use rdpg_boshrelease.Tasks.Queue.{dequeue}

-- a worker: `ClusterID`, `myIP` and `workRole`
pub record Worker : Type 0 where
  pub cluster_id : String
  pub my_ip : String
  pub work_role : String

unfoldable pub work_key : String → String
work_key cluster = "rdpg/" <> cluster <> "/tasks/work/lock"

-- `WorkLock()`
unfoldable pub work_lock : Worker → Action
work_lock k = lock (work_key k.cluster_id)

-- `WorkUnlock()`, of which no caller looks at the error
unfoldable pub work_unlock : Worker → Action
work_unlock k = logged (unlock (work_key k.cluster_id))

-- `isWriteNode(currentIP)`: false if Consul fails
abbrev pub is_first : String → Result (List String) → Exec Bool
is_first ip (ok []) = pure false
is_first ip (ok (a ∷ rest)) = pure (a == ip)
is_first ip (err e) = pure false
is_first ip panics = panic
is_first ip hangs = hang

unfoldable pub is_write_node : Worker → Exec Bool
is_write_node k = do svcs ← attempt (service (k.cluster_id <> "-master")); is_first k.my_ip svcs

abbrev pub node_type_of : Bool → String
node_type_of writes = if writes then "write" else "read"

-- the WHERE clause of the worker's query
abbrev pub eligible : Worker → String → TaskRow → Bool
eligible k node_type r =
    is_null r.locked_by
    && ((r.role == "all" || r.role == k.work_role)
        && ((r.node == "*" || r.node == k.my_ip)
            && (r.node_type == "any" || r.node_type == node_type)))

-- ORDER BY created_at DESC LIMIT 1
abbrev pub newer : TaskRow → Option TaskRow → Option TaskRow
newer r none = some r
newer r (some s) = if leb s.created_at r.created_at then some r else some s

abbrev pub newest : List TaskRow → Option TaskRow
newest [] = none
newest (r ∷ rs) = newer r (newest rs)

-- the `switch` of `t.Work()`: is there a handler?
abbrev pub has_handler : String → Bool
has_handler action =
    action == "Vacuum"
    || (action == "PrecreateDatabases"
        || (action == "ReconcileAvailableDatabases"
            || (action == "ReconcileAllDatabases"
                || (action == "DecommissionDatabase"
                    || (action == "DecommissionDatabases"
                        || (action == "Reconfigure"
                            || (action == "RemoveDatabase"
                                || (action == "ScheduleNewDatabaseBackups"
                                    || (action == "BackupDatabase"
                                        || action == "DeleteBackupHistory")))))))))

-- `go t.X(workRole)`
unfoldable pub start : TaskRow → Action
start r = modify (λ w. record w { started = w.started ++ ((r.action, r) ∷ []) })

unfoldable pub delete_task : ℕ → Db → Db
delete_task id d = record d { tasks = delete_where (λ r. eqb r.id id) d.tasks }

unfoldable pub reset_task : ℕ → Db → Db
reset_task id d = record d {
  tasks =
      set_where (λ r. eqb r.id id) (λ r. record r { locked_by = none; processing_at = none })
        d.tasks;
}

-- `t.Work()`: the error for an unknown action is replaced by that of the DELETE.
unfoldable pub work_task : TaskRow → Action
work_task r = do (if has_handler r.action then start r else pure tt); exec_db (delete_task r.id)

-- The worker after `task.Work()`.
abbrev pub after_work : TaskRow → Result (Unit {0}) → Action
after_work r (ok u) = logged (exec_db (delete_task r.id))
after_work r (err e) = logged (exec_db (reset_task r.id))
after_work r panics = panic
after_work r hangs = hang

-- The worker after `task.Dequeue()`; after an error it goes on with the next round.
abbrev pub after_dequeue : Worker → TaskRow → Result (Unit {0}) → Action
after_dequeue k r (ok u) = do
  work_unlock k
  done_or_failed ← attempt (work_task r)
  after_work r done_or_failed
after_dequeue k r (err e) = pure tt
after_dequeue k r panics = panic
after_dequeue k r hangs = hang

-- The worker after its query.
abbrev pub after_select : Worker → Result (Option TaskRow) → Action
after_select k (ok (some r)) = do d ← attempt (dequeue k.my_ip r.id); after_dequeue k r d
after_select k (ok none) = do work_unlock k; sleep 5
after_select k (err e) = do work_unlock k; sleep 5
after_select k panics = panic
after_select k hangs = hang

-- The worker after `WorkLock()`.
abbrev pub after_lock : Worker → Result (Unit {0}) → Action
after_lock k (ok u) = do
  writes ← is_write_node k
  found ← attempt (query (λ w. newest (select (eligible k (node_type_of writes)) w.db.tasks)))
  after_select k found
after_lock k (err e) = sleep 10
after_lock k panics = panic
after_lock k hangs = hang

-- one round of the loop of `Work(role)`
unfoldable pub work_round : Worker → Action
work_round k = do locked ← attempt (work_lock k); after_lock k locked

-- `n` rounds
unfoldable pub work_rounds : ℕ → Worker → Action
work_rounds zero k = pure tt
work_rounds (suc n) k = do work_round k; work_rounds n k
