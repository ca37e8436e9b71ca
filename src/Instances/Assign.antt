-- ===== src/Instances/Assign.antt =====
-- instances/provision.go, register.go, reconcile.go, assign.go and decommission.go: the changes of
-- cfsb.instances. The loops take fuel; one that runs out of it hangs.
use rdpg_boshrelease.Base.{
  ℕ, zero, suc, ◌+◌, String, ◌==◌, Option, none, some, List, [], ◌∷◌, ◌++◌, ltb, leb, if◌then◌else◌,
  select, set_where,
}
use rdpg_boshrelease.World.{
  InstanceRow, TaskRow, Db, Error, no_rows, message, Result, ok, err, panics, hangs, Exec, Action,
  pure, raise, panic, hang, gets, attempt, logged, error_of, return_error, call, exec_db, get_row,
  sleep, service, send, ◌>>=◌, ◌>>◌,
}
use rdpg_boshrelease.Instances.Model.{Instance, lock_instance, unlock_instance, cluster_ips}
use rdpg_boshrelease.Instances.Find.{is_available, find_by_database}

-- ORDER BY created_at ASC LIMIT 1
abbrev pub older : InstanceRow → Option InstanceRow → Option InstanceRow
older r none = some r
older r (some s) = if leb r.created_at s.created_at then some r else some s

abbrev pub oldest : List InstanceRow → Option InstanceRow
oldest [] = none
oldest (r ∷ rs) = older r (oldest rs)

abbrev pub next_available : Db → Option InstanceRow
next_available d = oldest (select is_available d.instances)

-- UPDATE cfsb.instances SET instance_id, service_id, plan_id, organization_id, space_id WHERE dbname
abbrev pub assign_row : Instance → InstanceRow → InstanceRow
assign_row i r = record r {
  instance_id = some i.instance_id;
  service_id = some i.service_id;
  plan_id = some i.plan_id;
  organization_id = some i.organization_id;
  space_id = some i.space_id;
}

unfoldable pub assign_database : Instance → Db → Db
assign_database i d = record d {
  instances = set_where (λ r. r.dbname == i.database) (assign_row i) d.instances;
}

-- `Provision` after the assignment: the service cluster is told, if Consul knows a node of it.
abbrev pub tell : Instance → List String → Exec Instance
tell i [] = pure i
tell i (ip ∷ ips) = do
  send (record { method = "PUT"; address = ip; path = "databases/assign"; subject = i.database })
  pure i

unfoldable pub assign_and_tell : Instance → Exec Instance
assign_and_tell i = do
  exec_db (assign_database i)
  logged (unlock_instance i)
  svcs ← service i.cluster_id
  tell i svcs

abbrev pub once_locked : Exec Instance → Instance → Result (Unit {0}) → Exec Instance
once_locked again i (ok u) = assign_and_tell i
once_locked again i (err e) = again
once_locked again i panics = panic
once_locked again i hangs = hang

-- `ni` is nil if the row has gone.
abbrev pub take_found : Exec Instance → Instance → Option Instance → Exec Instance
take_found again i none = panic
take_found again i (some ni) = do
  let j = record i {
    cluster_id = ni.cluster_id;
    database = ni.database;
    user = ni.user;
    pass = ni.pass;
  }
  locked ← attempt (lock_instance j)
  once_locked again j locked

abbrev pub out_of_capacity : Error
out_of_capacity = message "Provisioning failed, temporarily out of capacity."

-- after the query for an available database
abbrev pub once_chosen : (ℕ → Exec Instance) → ℕ → Instance → Result InstanceRow → Exec Instance
once_chosen again attempts i (ok row) = do
  ni ← find_by_database row.dbname
  take_found (again attempts) i ni
once_chosen again attempts i (err no_rows) =
    if ltb attempts 3 then (do sleep 10; again (attempts + 1)) else raise out_of_capacity
once_chosen again attempts i (err (message e)) = raise (message e)
once_chosen again attempts i panics = panic
once_chosen again attempts i hangs = hang

unfoldable pub provision_loop : ℕ → ℕ → Instance → Exec Instance
provision_loop zero attempts i w = (hangs, w)
provision_loop (suc fuel) attempts i w =
    (do
      chosen ← attempt (get_row (λ v. next_available v.db))
      once_chosen (λ n. provision_loop fuel n i) attempts i chosen)
      w

-- `i.Provision()`: the instance with the database that it was given
unfoldable pub provision : ℕ → Instance → Exec Instance
provision fuel i = do call; provision_loop fuel 0 i

-- INSERT INTO cfsb.instances
abbrev pub insert_row : InstanceRow → Db → Db
insert_row r d = record d {
  instances = d.instances ++ (record r { id = d.next_id } ∷ []);
  next_id = d.next_id + 1;
}

-- A row with the columns of the INSERT of `Register`.
abbrev pub fresh_row : ℕ → Instance → InstanceRow
fresh_row now i = record {
  id = 0;
  cluster_id = i.cluster_id;
  instance_id = none;
  service_id = none;
  plan_id = none;
  organization_id = none;
  space_id = none;
  dbname = i.database;
  dbuser = i.user;
  dbpass = i.pass;
  created_at = now;
  effective_at = some now;
  ineffective_at = none;
  decommissioned_at = none;
}

-- `i.Register()`. The error of `Unlock` replaces that of the INSERT.
unfoldable pub register : Instance → Action
register i = do
  call
  lock_instance i
  now ← gets (λ w. w.now)
  logged (exec_db (insert_row (fresh_row now i)))
  unlock_instance i

-- The body of `Reconcile` under the lock: an unknown database is inserted, as assigned.
abbrev pub insert_unknown : Instance → Option Instance → Action
insert_unknown i none = do
  now ← gets (λ w. w.now)
  exec_db (insert_row (assign_row i (fresh_row now i)))
insert_unknown i (some known) = pure tt

-- `i.Reconcile()`. The error of `Unlock` replaces those of the query and of the INSERT.
unfoldable pub reconcile : Instance → Action
reconcile i = do
  call
  lock_instance i
  logged (do known ← find_by_database i.database; insert_unknown i known)
  unlock_instance i

-- What the loop of `Assign` does after the UPDATE: it unlocks, twice after an error.
abbrev pub once_assigned : Instance → Action → Result (Unit {0}) → Action
once_assigned i again (ok u) = logged (unlock_instance i)
once_assigned i again (err e) = do logged (unlock_instance i); logged (unlock_instance i); again
once_assigned i again panics = panic
once_assigned i again hangs = hang

abbrev pub assign_once_locked : Instance → Action → Result (Unit {0}) → Action
assign_once_locked i again (ok u) = do
  r ← attempt (exec_db (assign_database i))
  once_assigned i again r
assign_once_locked i again (err e) = again
assign_once_locked i again panics = panic
assign_once_locked i again hangs = hang

unfoldable pub assign_loop : ℕ → Instance → Action
assign_loop zero i w = (hangs, w)
assign_loop (suc fuel) i w =
    (do locked ← attempt (lock_instance i); assign_once_locked i (assign_loop fuel i) locked) w

-- INSERT INTO tasks.tasks, with the defaults of the columns that are left out
abbrev pub insert_task : TaskRow → Db → Db
insert_task t d = record d {
  tasks = d.tasks ++ (record t { id = d.next_id } ∷ []);
  next_id = d.next_id + 1;
}

abbrev pub new_task : ℕ → String → String → String → String → String → TaskRow
new_task now cluster node role action task_data = record {
  id = 0;
  cluster_id = cluster;
  node = node;
  role = role;
  action = action;
  task_data = task_data;
  ttl = 3600;
  node_type = "any";
  locked_by = none;
  created_at = now;
  processing_at = none;
}

-- The loop of `Assign` over the nodes; `err` is that of the last INSERT.
abbrev pub enqueue_reconfigure : String → Option Error → List String → Action
enqueue_reconfigure cluster e [] = return_error e
enqueue_reconfigure cluster e (ip ∷ ips) = do
  now ← gets (λ w. w.now)
  r ← attempt (exec_db (insert_task (new_task now cluster ip "service" "Reconfigure" "pgbouncer")))
  enqueue_reconfigure cluster (error_of r) ips

-- `i.Assign()`, with the cluster of this process
unfoldable pub assign : ℕ → String → Instance → Action
assign fuel cluster i = do
  call
  assign_loop fuel i
  ips ← cluster_ips i
  enqueue_reconfigure cluster none ips

-- UPDATE cfsb.instances SET ineffective_at=CURRENT_TIMESTAMP WHERE dbname
unfoldable pub retire_database : ℕ → String → Db → Db
retire_database now dbname d = record d {
  instances =
      set_where (λ r. r.dbname == dbname) (λ r. record r { ineffective_at = some now }) d.instances;
}

-- `i.Decommission()`, with the cluster of this process. The error of the UPDATE is only logged.
unfoldable pub decommission : String → Instance → Action
decommission cluster i = do
  call
  now ← gets (λ w. w.now)
  logged (exec_db (retire_database now i.database))
  exec_db (insert_task (new_task now cluster "*" "all" "DecommissionDatabase" i.database))
