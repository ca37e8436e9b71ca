-- ===== src/Services/Config.antt =====
-- services/services.go, pgbouncer.go, haproxy.go, pgbdr.go and consul.go.
use rdpg_boshrelease.Base.{String, ◌<>◌, ◌==◌, ◌||◌, List, [], ◌∷◌, ◌++◌, map, join, if◌then◌else◌}
use rdpg_boshrelease.World.{
  message, Exec, Action, pure, raise, call, service, read_file, write_file, is_missing, run, ◌>>=◌,
  ◌>>◌,
}
use rdpg_boshrelease.Pg.{new_pg, connect}
use rdpg_boshrelease.Instances.{Instance, active}

-- `Service`
pub record Service : Type 0 where
  pub name : String

-- `NewService(name)`: an unknown name is no error.
unfoldable pub new_service : String → Service
new_service name =
    if name == "haproxy" || (name == "pgbouncer" || (name == "pgbdr" || name == "consul"))
    then record { name = name }
    else record { name = "" }

-- `s.GetWriteMasterIP()`, in the cluster of this process: empty if Consul knows no master
abbrev pub first_address : List String → String
first_address [] = ""
first_address (ip ∷ ips) = ip

unfoldable pub write_master_ip : String → Exec String
write_master_ip cluster = do call; svcs ← service (cluster <> "-master"); pure (first_address svcs)

-- `s.ClusterIPs(clusterID)`: without an error the list may be empty.
unfoldable pub cluster_ips : String → Exec (List String)
cluster_ips cluster = do call; service cluster

abbrev pub node_dir : String
node_dir = "/var/vcap/jobs/rdpgd-service"

abbrev pub ini_template : String
ini_template = "/var/vcap/jobs/rdpgd-service/config/pgbouncer/pgbouncer.ini"

abbrev pub users_template : String
users_template = "/var/vcap/jobs/rdpgd-service/config/pgbouncer/users"

abbrev pub ini_path : String
ini_path = "/var/vcap/store/pgbouncer/config/pgbouncer.ini"

abbrev pub users_path : String
users_path = "/var/vcap/store/pgbouncer/config/users"

abbrev pub database_line : String → Instance → String
database_line pg_port i =
    i.database <> " = host=127.0.0.1 port=" <> pg_port <> " dbname=" <> i.database

abbrev pub user_line : Instance → String
user_line i = "\"" <> i.user <> "\" \"" <> i.pass <> "\""

-- `ConfigurePGBouncer()`, with PostgreSQL's function `md5`
unfoldable pub configure_users : (String → String) → String → Action
configure_users md5 pg_port = do
  active_instances ← active md5
  pgb_ini ← read_file ini_template
  pgb_users ← read_file users_template
  write_file ini_path
      (join "\n" ((pgb_ini ∷ map (database_line pg_port) active_instances) ++ ("" ∷ [])))
  write_file users_path (join "\n" ((pgb_users ∷ map user_line active_instances) ++ ("" ∷ [])))
  run "/var/vcap/jobs/pgbouncer/bin/control reload"

unfoldable pub configure_pgbouncer : (String → String) → String → Action
configure_pgbouncer md5 pg_port = do
  missing ← is_missing node_dir
  if missing then pure tt else configure_users md5 pg_port

abbrev pub haproxy_template : String
haproxy_template = "/var/vcap/jobs/rdpgd-service/config/haproxy/haproxy.cfg.header"

abbrev pub haproxy_path : String
haproxy_path = "/var/vcap/jobs/haproxy/config/haproxy.cfg"

abbrev pub haproxy_footer : String → String
haproxy_footer ip =
    "\nfrontend pgbdr_write_port\nbind 0.0.0.0:5432\n  mode tcp\n  default_backend pgbdr_write_master\n \nbackend pgbdr_write_master\n  mode tcp\n\tserver master "
    <> ip <> ":6432 check\n\t"

-- The file is left alone while no master is known.
abbrev pub write_haproxy : String → String → Action
write_haproxy header ip = if ip == "" then pure tt else do
  write_file haproxy_path (join "\n" (header ∷ haproxy_footer ip ∷ []))
  run "/var/vcap/jobs/haproxy/bin/control reload"

unfoldable pub configure_frontend : String → Action
configure_frontend cluster = do
  header ← read_file haproxy_template
  ip ← write_master_ip cluster
  write_haproxy header ip

-- `ConfigureHAProxy()`, in the cluster of this process
unfoldable pub configure_haproxy : String → Action
configure_haproxy cluster = do
  missing ← is_missing node_dir
  if missing then pure tt else configure_frontend cluster

abbrev pub hba_template : String
hba_template = "/var/vcap/jobs/pgbdr/config/pg_hba.conf"

abbrev pub hba_path : String
hba_path = "/var/vcap/store/pgbdr/data/pg_hba.conf"

abbrev pub hba_lines : List String → List String
hba_lines [] = []
hba_lines (ip ∷ ips) =
    ("host    replication   postgres " <> ip <> "/32  trust")
    ∷ ("host    all           postgres " <> ip <> "/32  trust")
    ∷ ("host    all           rdpg " <> ip <> "/32  trust")
    ∷ hba_lines ips

-- `ConfigurePGBDR()`, in the cluster of this process. Whether pg_reload_conf() succeeds is only
-- logged.
unfoldable pub configure_pgbdr : String → String → Action
configure_pgbdr cluster pg_port = do
  ips ← cluster_ips cluster
  header ← read_file hba_template
  write_file hba_path (join "\n" ((header ∷ hba_lines ips) ++ ("" ∷ [])))
  connect (new_pg "127.0.0.1" pg_port "postgres" "postgres" "")
  call

-- `ConfigureConsul()`
abbrev pub configure_consul : Action
configure_consul = raise (message "services.Service#Configure(\"consul\") is not yet implemented")

-- `s.Configure()`
unfoldable pub configure : (String → String) → String → String → Service → Action
configure md5 cluster pg_port s =
    if s.name == "consul"
    then configure_consul
    else if s.name == "haproxy"
    then configure_haproxy cluster
    else if s.name == "pgbouncer"
    then configure_pgbouncer md5 pg_port
    else if s.name == "pgbdr"
    then configure_pgbdr cluster pg_port
    else raise (message ("services.Service<" <> s.name <> ">#Configure() is unknown."))
