-- ===== src/Pg/Conn.antt =====
-- pg/pg.go: `PG`, `NewPG`, `Set`, `pgURI`, `pgDSN` and `Connect`.
use rdpg_boshrelease.Base.{String, ◌<>◌, Option, none, some, ◌==◌, if◌then◌else◌}
use rdpg_boshrelease.World.{Error, message, Action, call}

pub record Pg : Type 0 where
  pub ip : String
  pub port : String
  pub user : String
  pub pass : String
  pub database : String
  pub connect_timeout : String
  pub sslmode : String
  pub uri : String
  pub dsn : String

-- `if v != "" { s += prefix + v }`
abbrev pub part : String → String → String
part prefix v = if v == "" then "" else prefix <> v

-- `p.pgURI()`
unfoldable pub pg_uri : Pg → Pg
pg_uri p = record p {
  uri =
      "postgres://"
      <> part "" p.user
      <> part ":" p.pass
      <> part "@" p.ip
      <> part ":" p.port
      <> part "/" p.database
      <> ("?sslmode=" <> p.sslmode <> "&fallback_application_name=rdpgd")
      <> part "&connect_timeout=" p.connect_timeout;
}

-- `p.pgDSN()`
unfoldable pub pg_dsn : Pg → Pg
pg_dsn p = record p {
  dsn =
      part " host=" p.ip
      <> part " port=" p.port
      <> part " user=" p.user
      <> part " password=" p.pass
      <> part " dbname=" p.database
      <> part " connect_timeout=" p.connect_timeout
      <> (" fallback_application_name=rdpgd sslmode=" <> p.sslmode);
}

-- `NewPG`
unfoldable pub new_pg : String → String → String → String → String → Pg
unfolding pg_uri pg_dsn
new_pg ip port user database pass = pg_dsn (
    pg_uri (record {
      ip = ip;
      port = port;
      user = user;
      pass = pass;
      database = database;
      connect_timeout = "5";
      sslmode = "disable";
      uri = "";
      dsn = "";
    }))

-- The `switch` of `Set`. Its last case is the literal key "default"; any other key matches no case.
unfoldable pub set_property : String → String → Pg → Pg
set_property key value p =
    if key == "ip"
    then record p { ip = value }
    else if key == "port"
    then record p { port = value }
    else if key == "user"
    then record p { user = value }
    else if key == "database"
    then record p { database = value }
    else if key == "connect_timeout"
    then record p { connect_timeout = value }
    else if key == "sslmode"
    then record p { sslmode = value }
    else if key == "pass"
    then record p { pass = value }
    else p

-- `p.Set(key, value)`: the properties after the call, and the error.
unfoldable pub set : String → String → Pg → Pg × Option Error
set key value p =
    if key == "default"
    then (p, some (message "Attempt to set unknown key default"))
    else (pg_dsn (pg_uri (set_property key value p)), none)

-- `p.Set("database", name)`, whose error is not looked at
unfoldable pub set_database : String → Pg → Pg
unfolding set
set_database name p = (set "database" name p).0

-- `p.Connect()`: opens a connection to `p.URI`
unfoldable pub connect : Pg → Action
connect p = call
