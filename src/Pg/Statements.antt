-- ===== src/Pg/Statements.antt =====
-- The SQL statements of pg/pg.go. PostgreSQL folds a name that is not quoted to lower case.
use rdpg_boshrelease.Base.{
  List, map, String, Bool, ◌∷◌, ◌==◌, ◌&&◌, ◌||◌, if◌then◌else◌, any, member, delete_where,
  set_where, to_lower,
}
use rdpg_boshrelease.World.{Error, message, Server, update, Action, raise, modify, call, ◌>>◌}

abbrev pub has_user : String → Server → Bool
has_user name s = member name s.users

abbrev pub names : Server → List String
names s = map (λ (d, owner). d) s.databases

abbrev pub has_database : String → Server → Bool
has_database name s = member name (names s)

-- The outcome of a statement on a server.
pub data Change : Type 0 where
  changed : Server → Change
  refused : Error → Change

-- A statement on the server at an address. It changes nothing if it fails.
abbrev pub store : String → Change → Action
store ip (changed s) = modify (λ w. record w { servers = update w.servers ip s })
store ip (refused e) = raise e

unfoldable pub exec_server : String → (Server → Change) → Action
exec_server ip f = do call; λ w. store ip (f (w.servers ip)) w

-- CREATE USER name
unfoldable pub create_role : String → Server → Change
create_role name s =
    if has_user (to_lower name) s
    then refused (message "role already exists")
    else changed (record s { users = to_lower name ∷ s.users })

-- ALTER USER name ..., which fails if there is no such role
unfoldable pub alter_role : String → Server → Change
alter_role name s =
    if has_user (to_lower name) s then changed s else refused (message "role does not exist")

-- CREATE DATABASE name WITH OWNER owner
unfoldable pub create_db : String → String → Server → Change
create_db name owner s =
    if has_database (to_lower name) s
    then refused (message "database already exists")
    else if has_user (to_lower owner) s
    then changed (record s { databases = (to_lower name, to_lower owner) ∷ s.databases })
    else refused (message "role does not exist")

-- REVOKE ... ON DATABASE "name", with the name quoted
unfoldable pub revoke_public : String → Server → Change
revoke_public name s =
    if has_database name s then changed s else refused (message "database does not exist")

-- GRANT ALL PRIVILEGES ON DATABASE name TO user
unfoldable pub grant_all : String → String → Server → Change
grant_all name user s =
    if has_database (to_lower name) s && has_user (to_lower user) s
    then changed s
    else refused (message "database or role does not exist")

-- DROP DATABASE IF EXISTS name
unfoldable pub drop_db : String → Server → Change
drop_db name s =
    changed (record s { databases = delete_where (λ (d, owner). d == to_lower name) s.databases })

-- DROP USER name
unfoldable pub drop_role : String → Server → Change
drop_role name s =
    if has_user (to_lower name) s
    then (if any (λ (d, owner). owner == to_lower name) s.databases
        then refused (message "role cannot be dropped because some objects depend on it")
        else changed (record s { users = delete_where (λ u. u == to_lower name) s.users }))
    else refused (message "role does not exist")

-- CREATE EXTENSION IF NOT EXISTS ext, in a database
unfoldable pub create_extension : String → String → Server → Change
create_extension dbname ext s =
    if any (λ (d, e). d == dbname && e == ext) s.extensions
    then changed s
    else changed (record s { extensions = (dbname, ext) ∷ s.extensions })

-- The SQL function rdpg.bdr_disable_database of rdpg/sql.go: no connections, owned by postgres.
unfoldable pub disable_db : String → Server → Change
disable_db name s =
    if name == "postgres" || name == "rdpg"
    then changed s
    else if has_database name s
    then changed (record s {
      databases = set_where (λ (d, owner). d == name) (λ (d, owner). (d, "postgres")) s.databases;
      disabled = name ∷ s.disabled;
    })
    else refused (message "database does not exist")

-- bdr.bdr_group_create and bdr.bdr_group_join, in a database
unfoldable pub enter_group : String → Server → Change
enter_group dbname s =
    if member dbname s.groups
    then refused (message "this node is already a member of a Bdr group")
    else changed (record s { groups = dbname ∷ s.groups })
