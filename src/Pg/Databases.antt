-- ===== src/Pg/Databases.antt =====
-- pg/pg.go: `DatabaseExists`, `CreateDatabase`, `CreateExtensions`, `DisableDatabase`,
-- `StopReplication` and `DropDatabase`.
use rdpg_boshrelease.Base.{String, Bool, List, [], ◌∷◌, ◌==◌, if◌then◌else◌, first}
use rdpg_boshrelease.World.{
  message, Exec, Action, pure, raise, get_row, attempt, logged, ◌>>=◌, ◌>>◌,
}
use rdpg_boshrelease.Pg.Conn.{Pg, set_database, connect}
use rdpg_boshrelease.Pg.Statements.{
  names, exec_server, create_db, revoke_public, grant_all, drop_db, create_extension, disable_db,
}
use rdpg_boshrelease.Pg.Roles.{found, user_exists}

-- `p.DatabaseExists(dbname)`
unfoldable pub database_exists : Pg → String → Exec Bool
database_exists p dbname = do
  let q = set_database "postgres" p
  connect q
  n ← attempt (get_row (λ w. first (λ d. dbname == d) (names (w.servers q.ip))))
  found n

-- The statements of `CreateDatabase`; the error of the second is only logged.
unfoldable pub create_owned : Pg → String → String → Action
create_owned q dbname dbuser = do
  exec_server q.ip (create_db dbname dbuser)
  logged (exec_server q.ip (revoke_public dbname))
  exec_server q.ip (grant_all dbname dbuser)

unfoldable pub create_missing : Pg → String → String → Action
create_missing q dbname dbuser = do
  exists ← database_exists q dbname
  if exists then pure tt else create_owned q dbname dbuser

-- `p.CreateDatabase(dbname, dbuser)`
unfoldable pub create_database : Pg → String → String → Action
create_database p dbname dbuser = do
  let q = set_database "postgres" p
  connect q
  has_owner ← user_exists q dbuser
  if has_owner
      then create_missing q dbname dbuser
      else raise (message "User does not exist, ensure that postgres user exists first.")

unfoldable pub create_each_extension : Pg → String → List String → Action
create_each_extension q dbname [] = pure tt
create_each_extension q dbname (ext ∷ exts) = do
  exec_server q.ip (create_extension dbname ext)
  create_each_extension q dbname exts

-- `p.CreateExtensions(dbname, exts)`
unfoldable pub create_extensions : Pg → String → List String → Action
create_extensions p dbname exts = do
  let q = set_database dbname p
  connect q
  create_each_extension q dbname exts

-- `p.DisableDatabase(dbname)`
unfoldable pub disable_database : Pg → String → Action
disable_database p dbname = do
  let q = set_database "postgres" p
  connect q
  exec_server q.ip (disable_db dbname)

-- `p.StopReplication(dbname)`, which only connects
unfoldable pub stop_replication : Pg → String → Action
stop_replication p dbname = connect (set_database "postgres" p)

-- `p.DropDatabase(dbname)`
unfoldable pub drop_database : Pg → String → Action
drop_database p dbname = do
  let q = set_database "postgres" p
  connect q
  exists ← database_exists q dbname
  if exists then exec_server q.ip (drop_db dbname) else pure tt
