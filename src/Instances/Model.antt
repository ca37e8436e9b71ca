-- ===== src/Instances/Model.antt =====
-- instances/instances.go: `Instance`, its lock and its addresses; instances/cluster.go: `ClusterIPs`.
use rdpg_boshrelease.Base.{String, ◌<>◌, List, [], ◌∷◌, split}
use rdpg_boshrelease.World.{Exec, Action, pure, panic, service, lock, unlock, ◌>>=◌}

-- `Instance`. Its `ID`, which nothing reads, is left out; its lock is the key that the process holds.
pub record Instance : Type 0 where
  pub cluster_id : String
  pub instance_id : String
  pub service_id : String
  pub plan_id : String
  pub organization_id : String
  pub space_id : String
  pub database : String
  pub user : String
  pub pass : String

-- the Consul key of `i.Lock()`
unfoldable pub lock_key : Instance → String
lock_key i = "rdpg/" <> i.cluster_id <> "/database/" <> i.database <> "/lock"

-- `i.Lock()`
unfoldable pub lock_instance : Instance → Action
lock_instance i = lock (lock_key i)

-- `i.Unlock()`, after `i.Lock()`
unfoldable pub unlock_instance : Instance → Action
unlock_instance i = unlock (lock_key i)

-- `i.ClusterIPs()`: without an error the list may be empty.
unfoldable pub cluster_ips : Instance → Exec (List String)
cluster_ips i = service i.cluster_id

-- `i.ExternalDNS()`: empty, and no error, if Consul knows no master
abbrev pub master_dns : List String → String
master_dns [] = ""
master_dns (ip ∷ ips) = ip <> ":5432"

unfoldable pub external_dns : Instance → Exec String
external_dns i = do services ← service (i.cluster_id <> "-master"); pure (master_dns services)

-- `i.URI()`
abbrev pub uri_at : Instance → String → String
uri_at i dns =
    "postgres://" <> i.user <> ":" <> i.pass <> "@" <> dns <> "/" <> i.database
    <> "?sslmode=disable"

unfoldable pub uri : Instance → Exec String
uri i = do dns ← external_dns i; pure (uri_at i dns)

-- `i.DSN()`, which indexes the parts of the address without looking at their number
abbrev pub dsn_at : Instance → List String → Exec String
dsn_at i (host ∷ port ∷ rest) = pure (
    "host=" <> host <> " port=" <> port <> " user=" <> i.user <> " password=" <> i.pass
    <> " dbname=" <> i.database <> " connect_timeout=5 sslmode=disable")
dsn_at i [] = panic
dsn_at i (host ∷ []) = panic

unfoldable pub dsn : Instance → Exec String
dsn i = do dns ← external_dns i; dsn_at i (split b':' dns)

-- `i.JDBCURI()`
unfoldable pub jdbc_uri : Instance → Exec String
jdbc_uri i = do dns ← external_dns i; pure ("jdbc:" <> uri_at i dns)
