-- ===== src/Bdr.antt =====
-- Package bdr (bdr/bdr.go): the same operation on each PostgreSQL node of a cluster.
pub mod Users
pub mod Databases
use rdpg_boshrelease.Base.{
  ℕ, zero, suc, ◌+◌, String, ◌<>◌, Option, none, some, List, [], ◌∷◌, map, reverse, eqb,
  if◌then◌else◌, decimal,
}
use rdpg_boshrelease.World.{
  Error, Result, ok, err, panics, hangs, Exec, Action, pure, raise, panic, hang, attempt, logged,
  return_error, service, ◌>>=◌, ◌>>◌,
}
use rdpg_boshrelease.Pg.{
  Pg, new_pg, set_database, create_user, create_database, create_extensions, bdr_group_create,
  bdr_group_join, disable_database, drop_database, drop_user,
}

-- `BDR`, and the port of `init`
pub record Bdr : Type 0 where
  pub cluster_id : String
  pub pg_port : String

-- `b.PGNodes()`
unfoldable pub pg_nodes : Bdr → Exec (List Pg)
pg_nodes b = do
  services ← service b.cluster_id
  pure (map (λ address. new_pg address b.pg_port "postgres" "postgres" "") services)

-- `nodes, err := b.PGNodes()`, where the error is only logged: on an error there are no nodes.
abbrev pub nodes_of : Result (List Pg) → Exec (List Pg × Option Error)
nodes_of (ok nodes) = pure (nodes, none)
nodes_of (err e) = pure ([], some e)
nodes_of panics = panic
nodes_of hangs = hang

unfoldable pub known_nodes : Bdr → Exec (List Pg × Option Error)
known_nodes b = do r ← attempt (pg_nodes b); nodes_of r

-- `for _, pg := range nodes { err = op(pg); if err != nil { return err } }`
unfoldable pub on_each : (Pg → Action) → List Pg → Action
on_each op [] = pure tt
on_each op (p ∷ ps) = do op p; on_each op ps

-- The loops that go on after an error.
unfoldable pub on_each_logged : (Pg → Action) → List Pg → Action
on_each_logged op [] = pure tt
on_each_logged op (p ∷ ps) = do logged (op p); on_each_logged op ps

-- `b.CreateUser(dbuser, dbpass)`. An error of `PGNodes` is not returned.
unfoldable pub create_user_on_nodes : Bdr → String → String → Action
create_user_on_nodes b dbuser dbpass = do
  found ← known_nodes b
  on_each (λ p. create_user (set_database "postgres" p) dbuser dbpass) found.0

-- `b.DropDatabase(dbname)`: from the last node to the first
unfoldable pub drop_database_on_nodes : Bdr → String → Action
drop_database_on_nodes b dbname = do
  found ← known_nodes b
  on_each_logged (λ p. drop_database (set_database "postgres" p) dbname) (reverse found.0)

-- The cleanup after an error: its own error is returned instead.
abbrev pub or_drop : Bdr → String → Option Error → Action
or_drop b dbname none = pure tt
or_drop b dbname (some e) = drop_database_on_nodes b dbname

-- The value of `err` after a loop that stops at its first error; with no nodes it is the error of
-- `PGNodes`.
abbrev pub error_after : Option Error → List Pg → Result (Unit {0}) → Exec (Option Error)
error_after e [] (ok u) = pure e
error_after e (p ∷ ps) (ok u) = pure none
error_after e ps (err x) = pure (some x)
error_after e ps panics = panic
error_after e ps hangs = hang

-- `b.CreateDatabase(dbname, owner)`
unfoldable pub create_database_on_nodes : Bdr → String → String → Action
create_database_on_nodes b dbname owner = do
  found ← known_nodes b
  r ← attempt (on_each (λ p. create_database p dbname owner) found.0)
  e ← error_after found.1 found.0 r
  or_drop b dbname e

-- `b.CreateExtensions(dbname, exts)`
unfoldable pub create_extensions_on_nodes : Bdr → String → List String → Action
create_extensions_on_nodes b dbname exts = do
  found ← known_nodes b
  r ← attempt (on_each (λ p. create_extensions p dbname exts) found.0)
  e ← error_after found.1 found.0 r
  return_error e

-- The loop of `CreateReplicationGroup`: the first node creates the group, the others join it.
unfoldable pub join_from : ℕ → String → ℕ → Pg → List Pg → Action
join_from fuel dbname index target [] = pure tt
join_from fuel dbname index target (p ∷ ps) = do
  bdr_group_join fuel p (dbname <> "_" <> decimal index) dbname target
  join_from fuel dbname (index + 1) target ps

unfoldable pub group_nodes : ℕ → String → List Pg → Action
group_nodes fuel dbname [] = pure tt
group_nodes fuel dbname (p ∷ ps) = do
  bdr_group_create p (dbname <> "_" <> decimal 0) dbname
  join_from fuel dbname 1 p ps

-- `b.CreateReplicationGroup(dbname)`
unfoldable pub create_replication_group : ℕ → Bdr → String → Action
create_replication_group fuel b dbname = do
  found ← known_nodes b
  r ← attempt (group_nodes fuel dbname found.0)
  e ← error_after found.1 found.0 r
  or_drop b dbname e

-- `b.DisableDatabase(dbname)`: from the last node to the first, until an error
unfoldable pub disable_database_on_nodes : Bdr → String → Action
disable_database_on_nodes b dbname = do
  found ← known_nodes b
  on_each (λ p. disable_database p dbname) (reverse found.0)

-- `b.BackupDatabase(dbname)` is not implemented, and says that it succeeded.
unfoldable pub backup_database_on_nodes : Bdr → String → Action
backup_database_on_nodes b dbname = pure tt

-- `b.DropUser(dbuser)`: from the last node to the first
unfoldable pub drop_user_on_nodes : Bdr → String → Action
drop_user_on_nodes b dbuser = do
  found ← known_nodes b
  on_each_logged (λ p. drop_user p dbuser) (reverse found.0)

-- `b.DeleteReplicationGroup(dbname)`, whose loop has an empty body
unfoldable pub delete_replication_group : Bdr → String → Action
delete_replication_group b dbname = do known_nodes b; pure tt
