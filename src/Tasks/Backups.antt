-- ===== src/Tasks/Backups.antt =====
-- tasks/backups.go, with `getNode` of tasks/consul_helpers.go. The address that the Consul agent
-- tells, the formatted time and what pg_dump writes are arguments.
use rdpg_boshrelease.Base.{
  Bool, ℕ, ◌+◌, String, ◌<>◌, ◌&&◌, ◌==◌, true, Option, none, List, [], ◌∷◌, ◌++◌, map, select,
  is_null, is_set, member, if◌then◌else◌,
}
use rdpg_boshrelease.World.{
  InstanceRow, ScheduleRow, HistoryRow, Db, Error, Result, ok, err, panics, hangs, Exec, Action,
  pure, panic, hang, gets, attempt, logged, error_of, return_error, call, write_file, run, ◌>>=◌,
  ◌>>◌,
}
use rdpg_boshrelease.Tasks.Maintenance.{get_list, exec_query, get_config_key_value, insert_history}

-- SELECT ... EXCEPT SELECT ...: the texts of the first list that the second has not, each once. The
-- order is that of the first list.
unfoldable pub except : List String → List String → List String
except [] ys = []
except (x ∷ xs) ys =
    let known = except xs ys in
    let new = except xs (x ∷ ys) in if member x ys then known else x ∷ new

abbrev pub has_backups : InstanceRow → Bool
has_backups r = is_set r.effective_at && is_null r.decommissioned_at

abbrev pub is_backup : ScheduleRow → Bool
is_backup s = s.action == "BackupDatabase"

-- the databases that are backed up
abbrev pub scheduled : Db → List String
scheduled d = map (λ s. s.task_data) (select is_backup d.schedules)

unfoldable pub missing_databases : Db → List String
missing_databases d = except (map (λ r. r.dbname) (select has_backups d.instances)) (scheduled d)

-- INSERT INTO tasks.schedules, with the defaults of the columns that are left out
unfoldable pub insert_schedule : String → String → ℕ → Db → Db
insert_schedule cluster dbname now d = record d {
  schedules =
      d.schedules
      ++ (record {
        id = d.next_id;
        cluster_id = cluster;
        role = "service";
        action = "BackupDatabase";
        task_data = dbname;
        frequency = 86400;
        ttl = 3600;
        node_type = "read";
        enabled = true;
        last_scheduled_at = now;
      }
          ∷ []);
  next_id = d.next_id + 1;
}

-- The loop over the missing databases; `err` is that of the last INSERT.
unfoldable pub schedule_each : String → Option Error → List String → Action
schedule_each cluster e [] = return_error e
schedule_each cluster e (dbname ∷ rest) = do
  now ← gets (λ w. w.now)
  r ← attempt (exec_query (insert_schedule cluster dbname now))
  schedule_each cluster (error_of r) rest

-- `t.ScheduleNewDatabaseBackups(workRole)`
unfoldable pub schedule_new_backups : String → Action
schedule_new_backups cluster = do
  names ← get_list (λ w. missing_databases w.db)
  schedule_each cluster none names

-- `getNode()`: without an answer of the agent its type assertion panics.
abbrev pub asserted : String → Result (Unit {0}) → Exec String
asserted advertised (ok u) = pure advertised
asserted advertised (err e) = panic
asserted advertised panics = panic
asserted advertised hangs = hang

unfoldable pub get_node : String → Exec String
get_node advertised = do call; info ← attempt call; asserted advertised info

-- `backupParams`
pub record BackupParams : Type 0 where
  pub pg_dump_path : String
  pub pg_port : String
  pub base_path : String
  pub database_name : String
  pub base_file_name : String
  pub node : String

-- the file with an extension, and its path
abbrev pub backup_file : BackupParams → String → String
backup_file b extension = b.base_file_name <> extension

abbrev pub backup_path : BackupParams → String → String
backup_path b extension = b.base_path <> "/" <> b.database_name <> "/" <> backup_file b extension

abbrev pub dump_command : BackupParams → String → String
dump_command b options =
    b.pg_dump_path <> " -p " <> b.pg_port <> " -U vcap " <> options <> " -N \"bdr\" "
    <> b.database_name

-- `createSchemaFile(b)` with ".schema" and "-c -s", and `createDataFile(b)` with ".data" and "-a":
-- pg_dump, and its output to a file.
unfoldable pub create_file : BackupParams → String → String → String → Action
create_file b extension options output = do
  run (dump_command b options)
  write_file (backup_path b extension) output

abbrev pub history_of : BackupParams → String → String → HistoryRow
history_of b extension status = record {
  dbname = b.database_name;
  node = b.node;
  file_name = backup_file b extension;
  status = status;
  created_at = 0;
}

-- the history after a file was made, or was not
abbrev pub record_file : BackupParams → String → Result (Unit {0}) → Action
record_file b extension (ok u) = insert_history (history_of b extension "ok")
record_file b extension (err e) = insert_history (history_of b extension "error")
record_file b extension panics = panic
record_file b extension hangs = hang

-- The two files. The error of the first INSERT is overwritten.
unfoldable pub back_up : (String → String) → BackupParams → Action
back_up output b = do
  call
  schema ← attempt (create_file b ".schema" "-c -s" (output ".schema"))
  logged (record_file b ".schema" schema)
  rows ← attempt (create_file b ".data" "-a" (output ".data"))
  record_file b ".data" rows

-- `t.BackupDatabase(workRole)`
unfoldable pub backup_database : String → String → String → (String → String) → String → Action
backup_database cluster advertised base_file_name output dbname = do
  pg_dump_path ← get_config_key_value cluster "pgDumpBinaryLocation"
  pg_port ← get_config_key_value cluster "BackupPort"
  base_path ← get_config_key_value cluster "BackupsPath"
  node ← get_node advertised
  back_up output (record {
    pg_dump_path = pg_dump_path;
    pg_port = pg_port;
    base_path = base_path;
    database_name = dbname;
    base_file_name = base_file_name;
    node = node;
  })
