-- ===== src/Rdpg/Schema.antt =====
-- rdpg/schema.go: the rows that a new cluster starts with. Whether a table exists is a table of the
-- state; the identifiers that PostgreSQL draws are arguments.

use rdpg_boshrelease.Base.{
  ℕ, zero, suc, String, ◌==◌, Bool, ◌||◌, true, false, some, List, [], ◌∷◌, ◌++◌, any, first,
  contains, if◌then◌else◌,
}
use rdpg_boshrelease.World.{
  Server, modify, ConfigRow, Db, Error, no_rows, message, Result, ok, err, panics, hangs, Exec,
  Action, pure, raise, panic, hang, attempt, logged, call, exec_db, get_row, sleep, ◌>>=◌, ◌>>◌,
}
use rdpg_boshrelease.Pg.{Pg, new_pg, set_database, connect, text, Change, changed, exec_server}
use rdpg_boshrelease.Instances.{column_is}
use rdpg_boshrelease.Rdpg.Cluster.{Daemon, Others, new_cluster}
use rdpg_boshrelease.Rdpg.Schedules.{insert_default_schedules}

-- The loop of `InitSchema` over the schemas, which waits for the DDL lock. Any other error is only
-- logged.
abbrev pub is_locked_out : Error → Bool
is_locked_out e =
    contains (text e) "cannot acquire DDL lock"
    || contains (text e) "Database is locked against DDL operations"

abbrev pub schemas_again : Result (Unit {0}) → Action → Action
schemas_again (ok u) again = pure tt
schemas_again (err e) again = if is_locked_out e then again else pure tt
schemas_again panics again = panic
schemas_again hangs again = hang

unfoldable pub schemas_wait : ℕ → Action
schemas_wait zero w = (hangs, w)
schemas_wait (suc fuel) w = (do r ← attempt call; schemas_again r (do sleep 1; schemas_wait fuel)) w

-- what is done when a query finds no row; its other errors are only logged
abbrev pub if_missing : {A : Type 0} → Action → Result A → Action
if_missing m (ok a) = pure tt
if_missing m (err no_rows) = logged m
if_missing m (err (message e)) = pure tt
if_missing m panics = panic
if_missing m hangs = hang

abbrev pub default_tables : List String
default_tables =
    "cfsb.services" ∷ "cfsb.plans" ∷ "cfsb.instances" ∷ "cfsb.bindings" ∷ "cfsb.credentials"
    ∷ "tasks.schedules" ∷ "tasks.tasks" ∷ "rdpg.consul_watch_notifications" ∷ "rdpg.events"
    ∷ "rdpg.config" ∷ "backups.file_history" ∷ []

abbrev pub create_table : String → Db → Db
create_table name d = record d { tables = d.tables ++ (name ∷ []) }

unfoldable pub create_tables : List String → Action
create_tables [] = pure tt
create_tables (name ∷ names) = do
  found ← attempt (get_row (λ w. first (λ t. t == name) w.db.tables))
  if_missing (exec_db (create_table name)) found
  create_tables names

-- the INSERT into rdpg.config, of which the key is the primary key
abbrev pub default_config : String → List ConfigRow
default_config cluster =
    record { key = "BackupsPath"; cluster_id = cluster; value = "/var/vcap/store/pgbdr/backups" }
    ∷ record { key = "BackupPort"; cluster_id = cluster; value = "7432" }
    ∷ record {
      key = "pgDumpBinaryLocation";
      cluster_id = cluster;
      value = "/var/vcap/packages/pgbdr/bin/pg_dump";
    }
    ∷ record { key = "defaultDaysToKeepFileHistory"; cluster_id = cluster; value = "180" }
    ∷ []

abbrev pub taken : List ConfigRow → List ConfigRow → Bool
taken [] rows = false
taken (c ∷ cs) rows = any (λ r. r.key == c.key) rows || taken cs rows

unfoldable pub insert_config : String → Action
insert_config cluster = do
  call
  λ w.
      if taken (default_config cluster) w.db.config
      then raise (message "duplicate key value violates unique constraint \"config_pkey\"") w
      else modify
          (λ v. record v { db = record (v.db) { config = v.db.config ++ default_config cluster } })
          w

-- the default service and plan of the broker
abbrev pub add_service : String → Db → Db
add_service uuid d = record d {
  services =
      d.services
      ++ (record {
        service_id = uuid;
        name = "rdpg";
        description = "Reliable PostgrSQL Service";
        bindable = true;
      }
          ∷ []);
}

abbrev pub add_plan : String → Db → Db
add_plan uuid d = record d {
  plans =
      d.plans
      ++ (record {
        plan_id = some uuid;
        name = some "shared";
        description = some "A Reliable PostgreSQL database on a shared server.";
      }
          ∷ []);
}

unfoldable pub insert_offer : String → String → Action
insert_offer service_uuid plan_uuid = do
  service ← attempt (get_row (λ w. first (λ r. r.name == "rdpg") w.db.services))
  if_missing (exec_db (add_service service_uuid)) service
  plan ← attempt (get_row (λ w. first (λ r. column_is r.name "shared") w.db.plans))
  if_missing (exec_db (add_plan plan_uuid)) plan

-- The function of each node. It is looked up under another name than it is created with. An error
-- of the query is returned.
abbrev pub create_routine : Server → Change
create_routine s =
    changed (record s { routines = s.routines ++ ("rdpg.bdr_disable_database" ∷ []) })

abbrev pub routine_missing : Pg → Result String → Action
routine_missing q (ok name) = pure tt
routine_missing q (err no_rows) = logged (exec_server q.ip create_routine)
routine_missing q (err (message e)) = raise (message e)
routine_missing q panics = panic
routine_missing q hangs = hang

unfoldable pub init_nodes : List Pg → Action
init_nodes [] = pure tt
init_nodes (p ∷ ps) = do
  let q = set_database "postgres" p
  logged (connect q)
  logged call
  found ←
      attempt (get_row (λ w. first (λ r. r == "rdpg.disable_database") (w.servers q.ip).routines))
  routine_missing q found
  init_nodes ps

abbrev pub known_or_none : Result (List Pg) → Exec (List Pg)
known_or_none (ok ps) = pure ps
known_or_none (err e) = pure []
known_or_none panics = panic
known_or_none hangs = hang

-- `r.InitSchema(role)`
unfoldable pub init_schema : ℕ → Daemon → Others → String → String → String → Action
init_schema fuel d o role service_uuid plan_uuid = do
  connect (new_pg "127.0.0.1" d.pg_port "rdpg" "rdpg" d.pg_pass)
  logged call
  schemas_wait fuel
  create_tables default_tables
  logged (insert_default_schedules fuel d.cluster_id role)
  logged (insert_config d.cluster_id)
  insert_offer service_uuid plan_uuid
  known ← attempt (new_cluster d o)
  nodes ← known_or_none known
  init_nodes nodes
