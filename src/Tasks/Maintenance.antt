-- ===== src/Tasks/Maintenance.antt =====
-- tasks/decommission.go, config.go, vacuum.go, history.go and pg_helpers.go.
use rdpg_boshrelease.Base.{
  ℕ, ◌+◌, ◌*◌, String, ◌<>◌, ◌&&◌, ◌==◌, Option, none, some, List, [], ◌∷◌, ◌++◌, map, ltb, select,
  delete_where, atoi, if◌then◌else◌,
}
use rdpg_boshrelease.World.{
  HistoryRow, Db, World, message, Result, ok, err, panics, hangs, Exec, Action, pure, raise, panic,
  hang, gets, attempt, logged, call, query, exec_db, send, ◌>>=◌, ◌>>◌,
}
use rdpg_boshrelease.Instances.{Instance, cluster_ips, find_known}
use rdpg_boshrelease.Tasks.Queue.{Task, enqueue}
use rdpg_boshrelease.Tasks.Databases.{or_panic}

-- the task of `DecommissionDatabase`, of which the other fields have Go's zero values
abbrev pub reconfigure_task : String → String → Task
reconfigure_task cluster ip = record {
  id = 0;
  cluster_id = cluster;
  node = ip;
  role = "all";
  action = "Reconfigure";
  task_data = "pgbouncer";
  ttl = 0;
  node_type = "";
}

unfoldable pub enqueue_reconfigures : ℕ → String → List String → Action
enqueue_reconfigures fuel cluster [] = pure tt
enqueue_reconfigures fuel cluster (ip ∷ ips) = do
  logged (enqueue fuel (reconfigure_task cluster ip))
  enqueue_reconfigures fuel cluster ips

abbrev pub decommission_at : ℕ → String → String → String → List String → Action
decommission_at fuel cluster role dbname [] = pure tt
decommission_at fuel cluster role dbname (ip ∷ ips) = do
  call
  if role == "manager"
      then send (record {
        method = "DELETE";
        address = ip;
        path = "databases/decommission/" <> dbname;
        subject = dbname;
      })
      else if role == "service"
      then enqueue_reconfigures fuel cluster (ip ∷ ips)
      else pure tt

-- An unknown database is a nil instance.
abbrev pub decommission_found : ℕ → String → String → String → Option Instance → Action
decommission_found fuel cluster role dbname none = panic
decommission_found fuel cluster role dbname (some i) = do
  ips ← cluster_ips i
  decommission_at fuel cluster role dbname ips

-- `t.DecommissionDatabase(workRole)`
unfoldable pub decommission_database : ℕ → String → String → String → Action
decommission_database fuel cluster role dbname = do
  connected ← attempt call
  or_panic connected
  found ← find_known dbname
  decommission_found fuel cluster role dbname found

-- `t.DecommissionDatabases(workRole)` is not implemented.
unfoldable pub decommission_databases : Action
decommission_databases = pure tt

-- `getList(address, sq)` and `execQuery(address, sq)`
abbrev pub get_list : (World → List String) → Exec (List String)
get_list f = do call; query f

abbrev pub exec_query : (Db → Db) → Action
exec_query f = do call; exec_db f

-- `getConfigKeyValue(keyName)`
abbrev pub first_value : String → List String → Exec String
first_value key_name [] = raise (message ("Key name " <> key_name <> " not found"))
first_value key_name (v ∷ vs) = pure v

unfoldable pub get_config_key_value : String → String → Exec String
get_config_key_value cluster key_name = do
  values ← get_list (λ w.
      map (λ r. r.value) (select (λ r. r.key == key_name && r.cluster_id == cluster) w.db.config))
  first_value key_name values

-- `t.Vacuum(workRole)`
unfoldable pub vacuum : Action
vacuum = do call; call

-- `t.DeleteBackupHistory(workRole)`: with no number of days the statement is refused. The value is
-- taken to be a whole number, if it is one.
abbrev pub delete_older : ℕ → Option ℕ → Action
delete_older now none = do call; raise (message "invalid input syntax for type interval")
delete_older now (some days) = exec_query (λ d. record d {
  history = delete_where (λ r. ltb (r.created_at + days * 86400) now) d.history;
})

abbrev pub value_or_empty : Result String → Exec String
value_or_empty (ok v) = pure v
value_or_empty (err e) = pure ""
value_or_empty panics = panic
value_or_empty hangs = hang

unfoldable pub delete_backup_history : String → Action
delete_backup_history cluster = do
  r ← attempt (get_config_key_value cluster "defaultDaysToKeepFileHistory")
  days ← value_or_empty r
  now ← gets (λ w. w.now)
  delete_older now (atoi days)

-- `insertHistory(f)`
unfoldable pub insert_history : HistoryRow → Action
insert_history f = do
  now ← gets (λ w. w.now)
  exec_query (λ d. record d { history = d.history ++ (record f { created_at = now } ∷ []) })
