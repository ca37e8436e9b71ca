-- ===== src/Tasks/Databases.antt =====
-- tasks/databases.go: `PrecreateDatabases`, `precreateDatabase` and `RemoveDatabase`.
use rdpg_boshrelease.Base.{
  ℕ, zero, suc, ◌-◌, String, ◌<>◌, Bool, false, ◌&&◌, ◌==◌, Option, none, some, List, [], ◌∷◌, map,
  ltb, is_null, is_set, select, set_where, length, to_lower, word_chars, atoi, if◌then◌else◌,
}
use rdpg_boshrelease.World.{
  InstanceRow, Db, Result, ok, err, panics, hangs, Exec, Action, pure, raise, panic, hang, gets,
  attempt, logged, call, query, exec_db, service, send, lock, unlock, ◌>>=◌, ◌>>◌,
}
use rdpg_boshrelease.Pg.{text}
use rdpg_boshrelease.Bdr.{
  Bdr, create_user_on_nodes, create_database_on_nodes, create_extensions_on_nodes,
  create_replication_group, disable_database_on_nodes, backup_database_on_nodes,
  drop_database_on_nodes, drop_user_on_nodes,
}
use rdpg_boshrelease.Instances.{Instance, insert_row, fresh_row, find_assigned}

-- A number of databases in the pool, the cluster, and the settings of the nodes.
pub record Pool : Type 0 where
  pub cluster_id : String
  pub work_role : String
  pub pool_size : ℕ
  pub pg_port : String

-- the name that `precreateDatabase` makes of a UUID
unfoldable pub identifier_of : String → String
identifier_of uuid = to_lower (word_chars uuid)

abbrev pub new_instance : String → String → String → Instance
new_instance cluster u1 u2 = record {
  cluster_id = cluster;
  instance_id = "";
  service_id = "";
  plan_id = "";
  organization_id = "";
  space_id = "";
  database = "d" <> identifier_of u1;
  user = "u" <> identifier_of u1;
  pass = identifier_of u2;
}

abbrev pub pool_nodes : Pool → Bdr
pool_nodes k = record { cluster_id = k.cluster_id; pg_port = k.pg_port }

-- The INSERT leaves `effective_at` NULL.
abbrev pub made_row : ℕ → Instance → InstanceRow
made_row now i = record (fresh_row now i) { effective_at = none }

unfoldable pub make_effective : ℕ → String → Db → Db
make_effective now dbname d = record d {
  instances =
      set_where (λ r. r.dbname == dbname) (λ r. record r { effective_at = some now }) d.instances;
}

-- The management cluster is told of the database, if Consul knows a node of it.
abbrev pub announce : Instance → List String → Action
announce i [] = pure tt
announce i (ip ∷ ips) =
    send
      (record { method = "POST"; address = ip; path = "databases/register"; subject = i.database })

-- `t.precreateDatabase(workRole, client)`, with the fuel of the wait for the replication group and
-- two new UUIDs
unfoldable pub precreate_database : ℕ → Pool → String × String → Action
precreate_database fuel k (u1, u2) = do
  let b = pool_nodes k
  let i = new_instance k.cluster_id u1 u2
  create_user_on_nodes b i.user i.pass
  create_database_on_nodes b i.database i.user
  call
  made ← gets (λ w. w.now)
  exec_db (insert_row (made_row made i))
  create_extensions_on_nodes b i.database ("btree_gist" ∷ "bdr" ∷ [])
  create_replication_group fuel b i.database
  now ← gets (λ w. w.now)
  exec_db (make_effective now i.database)
  svcs ← service "rdpgmc"
  announce i svcs

-- The query counts the databases that are not assigned and effective, ineffective ones too.
abbrev pub is_counted : InstanceRow → Bool
is_counted r = is_null r.instance_id && is_set r.effective_at

-- How many databases to make: as many as the pool lacks, or the number in the task's data, or 1 if
-- that is no number.
abbrev pub asked : Option ℕ → ℕ
asked none = 1
asked (some n) = n

abbrev pub wanted : ℕ → String → Exec ℕ
wanted pool_size task_data =
    if task_data == ""
    then (do
      available ← query (λ w. length (select is_counted w.db.instances))
      pure (pool_size - available))
    else pure (asked (atoi task_data))

-- the loop of `PrecreateDatabases`, which releases its lock after an error
abbrev pub unlock_with : String → Result (Unit {0}) → Action → Action
unlock_with key (ok u) rest = rest
unlock_with key (err e) rest = do logged (unlock key); raise e
unlock_with key panics rest = panic
unlock_with key hangs rest = hang

unfoldable pub precreate_each : ℕ → String → Pool → List (String × String) → Action
precreate_each fuel key k [] = logged (unlock key)
precreate_each fuel key k (u ∷ us) = do
  r ← attempt (precreate_database fuel k u)
  unlock_with key r (precreate_each fuel key k us)

-- `n` pairs of new UUIDs
abbrev pub draw : (ℕ → String × String) → ℕ → List (String × String)
draw uuids zero = []
draw uuids (suc n) = uuids n ∷ draw uuids n

-- A lock of which the missing channel is no error.
abbrev pub when_locked : Action → Result (Unit {0}) → Action
when_locked body (ok u) = body
when_locked body (err e) = if text e == "lock not acquired" then pure tt else raise e
when_locked body panics = panic
when_locked body hangs = hang

unfoldable pub create_key : String → String
create_key cluster = "rdpg/" <> cluster <> "/database/create/lock"

-- An error before the loop is returned without a release of the lock.
abbrev pub precreate_wanted : ℕ → Pool → (ℕ → String × String) → String → Action
precreate_wanted fuel k uuids task_data = do
  call
  total ← wanted k.pool_size task_data
  precreate_each fuel (create_key k.cluster_id) k (draw uuids total)

-- `t.PrecreateDatabases(workRole)`
unfoldable pub precreate_databases : ℕ → Pool → (ℕ → String × String) → String → Action
precreate_databases fuel k uuids task_data =
    if k.work_role == "service"
    then (do
      locked ← attempt (lock (create_key k.cluster_id))
      when_locked (precreate_wanted fuel k uuids task_data) locked)
    else pure tt

-- `RemoveDatabase`: the rows of its query
abbrev pub is_removable : ℕ → InstanceRow → Bool
is_removable now r = before r.ineffective_at && is_null r.decommissioned_at
  where
    before : Option ℕ → Bool
    before none = false
    before (some t) = ltb t now

-- The ids that are read before a NULL, of which the error is only logged.
abbrev pub scan_ids : List (Option String) → List String
scan_ids [] = []
scan_ids (none ∷ is) = []
scan_ids (some id ∷ is) = id ∷ scan_ids is

-- A failed query leaves no ids.
abbrev pub known_ids : Result (List InstanceRow) → Exec (List String)
known_ids (ok rows) = pure (scan_ids (map (λ r. r.instance_id) rows))
known_ids (err e) = pure []
known_ids panics = panic
known_ids hangs = hang

-- one database: each step only if the one before succeeded, the errors being logged
abbrev pub remove_steps : Bdr → Instance → Action
remove_steps b i = do
  disable_database_on_nodes b i.database
  backup_database_on_nodes b i.database
  drop_database_on_nodes b i.database
  drop_user_on_nodes b i.user
  drop_database_on_nodes b i.database

-- `FindByInstanceID` returns nil if it cannot connect, and the error's log line reads its fields.
abbrev pub or_panic : Result (Unit {0}) → Action
or_panic (ok u) = pure tt
or_panic (err e) = panic
or_panic panics = panic
or_panic hangs = hang

abbrev pub remove_found : Bdr → Result Instance → Action
remove_found b (ok i) = logged (remove_steps b i)
remove_found b (err e) = pure tt
remove_found b panics = panic
remove_found b hangs = hang

unfoldable pub remove_each : Bdr → List String → Action
remove_each b [] = pure tt
remove_each b (id ∷ ids) = do
  call
  connected ← attempt call
  or_panic connected
  found ← attempt (find_assigned id)
  remove_found b found
  remove_each b ids

-- The cluster of its `BDR` is the text "postgres://".
abbrev pub removal_nodes : String → Bdr
removal_nodes pg_port = record { cluster_id = "postgres://"; pg_port = pg_port }

unfoldable pub remove_key : String → String
remove_key cluster = "rdpg/" <> cluster <> "/work/databases/remove"

abbrev pub remove_all : String → Action
remove_all pg_port = do
  call
  rows ← attempt (query (λ w. select (is_removable w.now) w.db.instances))
  ids ← known_ids rows
  remove_each (removal_nodes pg_port) ids

-- `t.RemoveDatabase(workRole)`, which never releases its lock
unfoldable pub remove_database : String → String → Action
remove_database cluster pg_port = do
  locked ← attempt (lock (remove_key cluster))
  when_locked (remove_all pg_port) locked
