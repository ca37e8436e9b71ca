-- ===== src/Pg/Roles.antt =====
-- pg/pg.go: `UserExists`, `CreateUser`, `GrantUserPrivileges` and `DropUser`.
use rdpg_boshrelease.Base.{String, Bool, false, List, [], ◌∷◌, ◌==◌, not, if◌then◌else◌, first}
use rdpg_boshrelease.World.{
  no_rows, Result, ok, err, panics, hangs, Exec, Action, pure, raise, panic, hang, get_row, attempt,
  ◌>>=◌, ◌>>◌,
}
use rdpg_boshrelease.Pg.Conn.{Pg, set_database, connect}
use rdpg_boshrelease.Pg.Statements.{exec_server, create_role, alter_role, drop_role}

-- After `db.Get(&n, ...)`: no rows is no error, and an empty name is no row.
abbrev pub found : Result String → Exec Bool
found (ok name) = pure (not (name == ""))
found (err no_rows) = pure false
found (err e) = raise e
found panics = panic
found hangs = hang

-- `p.UserExists(dbuser)`
unfoldable pub user_exists : Pg → String → Exec Bool
user_exists p dbuser = do
  let q = set_database "postgres" p
  connect q
  n ← attempt (get_row (λ w. first (λ u. dbuser == u) (w.servers q.ip).users))
  found n

-- `p.CreateUser(dbuser, dbpass)`. The password is no part of the modelled server.
unfoldable pub create_user : Pg → String → String → Action
create_user p dbuser dbpass = do
  let q = set_database "postgres" p
  connect q
  exists ← user_exists q dbuser
  if exists
      then pure tt
      else do exec_server q.ip (create_role dbuser); exec_server q.ip (alter_role dbuser)

-- One round of the loop of `GrantUserPrivileges`: `result` is nil if the statement fails, and its
-- method `RowsAffected` is called before the error is looked at.
abbrev pub rows_affected : Result (Unit {0}) → Action
rows_affected (ok u) = pure tt
rows_affected (err e) = panic
rows_affected panics = panic
rows_affected hangs = hang

unfoldable pub grant_each : Pg → String → List String → Action
grant_each q dbuser [] = pure tt
grant_each q dbuser (priv ∷ privs) = do
  result ← attempt (exec_server q.ip (alter_role dbuser))
  rows_affected result
  grant_each q dbuser privs

-- `p.GrantUserPrivileges(dbuser, priviliges)`
unfoldable pub grant_user_privileges : Pg → String → List String → Action
grant_user_privileges p dbuser priviliges = do
  let q = set_database "postgres" p
  connect q
  grant_each q dbuser priviliges

-- `p.DropUser(dbuser)`
unfoldable pub drop_user : Pg → String → Action
drop_user p dbuser = do
  let q = set_database "postgres" p
  connect q
  exists ← user_exists q dbuser
  if exists then exec_server q.ip (drop_role dbuser) else pure tt
