-- ===== src/Rdpg/Cluster.antt =====
-- rdpg/cluster.go and rdpg/rdpg.go, and the loops of rdpg/bootstrap.go that wait for other nodes.
-- What other nodes do meanwhile is an argument; the loops take fuel, and hang without it.
use rdpg_boshrelease.Base.{
  ℕ, zero, suc, String, ◌<>◌, ◌==◌, Bool, ◌||◌, Option, none, some, List, [], ◌∷◌, ◌++◌, map,
  select, ltb, length, member, atoi, if◌then◌else◌,
}
use rdpg_boshrelease.World.{
  update, no_rows, message, Result, ok, err, panics, hangs, Exec, Action, pure, raise, panic, hang,
  modify, attempt, logged, call, query, sleep, send, ◌>>=◌, ◌>>◌,
}
use rdpg_boshrelease.Pg.{Pg, new_pg, connect, is_conflict}
use rdpg_boshrelease.Tasks.{is_service_cluster}

-- `ClusterID`, `myIP`, `pgPort` and `pgPass` of this process
pub record Daemon : Type 0 where
  pub cluster_id : String
  pub my_ip : String
  pub pg_port : String
  pub pg_pass : String

-- What other nodes do, by time: the addresses that they register with Consul for a service, and the
-- names of the nodes that have joined the BDR group.
pub record Others : Type 0 where
  pub nodes : String → ℕ → List String
  pub bdr_nodes : ℕ → List String

-- `catalog.Service(name, "", nil)`: the nodes of the catalog, and those that have registered since
unfoldable pub listed_nodes : Others → String → Exec (List String)
listed_nodes o name = query (λ w. w.catalog name ++ o.nodes name w.now)

-- `agent.ServiceRegister(...)`: a node has a name once.
abbrev pub with_address : String → List String → List String
with_address ip ips = if member ip ips then ips else ips ++ (ip ∷ [])

unfoldable pub register_service : String → String → Action
register_service name ip = do
  call
  modify (λ w. record w { catalog = update w.catalog name (with_address ip (w.catalog name)) })

-- `NewCluster(clusterID, client)`: the nodes, of which there may be none
unfoldable pub new_cluster : Daemon → Others → Exec (List Pg)
new_cluster d o = do
  ips ← listed_nodes o d.cluster_id
  pure (map (λ ip. new_pg ip d.pg_port "postgres" "postgres" "") ips)

-- `cluster.SetWriteMaster(ip)`, of which the error of the registration is not looked at
unfoldable pub set_write_master : Daemon → String → Action
set_write_master d ip = logged (register_service (d.cluster_id <> "-master") ip)

-- `cluster.GetWriteMaster()`: the address, or `none` for nil
abbrev pub first_of : List String → Option String
first_of [] = none
first_of (ip ∷ ips) = some ip

unfoldable pub get_write_master : Daemon → Others → Exec (Option String)
get_write_master d o = do svcs ← listed_nodes o (d.cluster_id <> "-master"); pure (first_of svcs)

-- `cluster.ClusterIPs()`, of the cluster of this process
unfoldable pub cluster_ips : Daemon → Others → Exec (List String)
cluster_ips d o = listed_nodes o d.cluster_id

-- `r.Clusters()`, of the keys of Consul's services: those that `^rdpg(mc|sc[0-9]+)$` matches
unfoldable pub clusters : List String → Exec (List String)
clusters keys = do call; pure (select (λ key. key == "rdpgmc" || is_service_cluster key) keys)

-- `CallAdminAPI(ip, method, path)`
unfoldable pub call_admin_api : String → String → String → Action
call_admin_api ip method path =
    send (record { method = method; address = ip; path = path; subject = "" })

-- `r.Register()`, after `strconv.Atoi(pgPort)`
abbrev pub register_at : Daemon → Option ℕ → Action
register_at d none = raise (message "strconv.ParseInt: invalid syntax")
register_at d (some port) = register_service d.cluster_id d.my_ip

unfoldable pub register_node : Daemon → Action
register_node d = register_at d (atoi d.pg_port)

-- the `switch` on the cluster: are there enough nodes?
abbrev pub enough : Daemon → ℕ → Bool
enough d n = if d.cluster_id == "rdpgmc" then ltb 2 n else ltb 1 n

-- `r.waitForClusterNodes()`
unfoldable pub nodes_wait : ℕ → Daemon → Others → Action
nodes_wait zero d o w = (hangs, w)
nodes_wait (suc fuel) d o w =
    (do
      ips ← cluster_ips d o
      if enough d (length ips) then pure tt else (do sleep 2; nodes_wait fuel d o))
      w

unfoldable pub wait_for_cluster_nodes : ℕ → Daemon → Others → Action
wait_for_cluster_nodes fuel d o = do new_cluster d o; nodes_wait fuel d o

-- `r.waitForBDRNodes()`: the loop that connects, and the loop that counts the nodes
abbrev pub connect_again : Result (Unit {0}) → Action → Action
connect_again (ok u) again = pure tt
connect_again (err e) again = if is_conflict e then again else raise e
connect_again panics again = panic
connect_again hangs again = hang

unfoldable pub connect_wait : ℕ → Pg → Action
connect_wait zero p w = (hangs, w)
connect_wait (suc fuel) p w =
    (do r ← attempt (connect p); connect_again r (do sleep 2; connect_wait fuel p)) w

abbrev pub count_again : Daemon → Result (List String) → Action → Action
count_again d (ok names) again = if enough d (length names) then pure tt else again
count_again d (err no_rows) again = again
count_again d (err (message e)) again = raise (message e)
count_again d panics again = panic
count_again d hangs again = hang

unfoldable pub bdr_wait : ℕ → Daemon → Others → Action
bdr_wait zero d o w = (hangs, w)
bdr_wait (suc fuel) d o w =
    (do
      names ← attempt (query (λ v. o.bdr_nodes v.now))
      count_again d names (do sleep 2; bdr_wait fuel d o))
      w

unfoldable pub wait_for_bdr_nodes : ℕ → Daemon → Others → Action
wait_for_bdr_nodes fuel d o = do
  connect_wait fuel (new_pg "127.0.0.1" d.pg_port "rdpg" "rdpg" d.pg_pass)
  bdr_wait fuel d o

-- `r.waitForWriteMasterIP()`
abbrev pub master_again : Option String → Action → Action
master_again (some ip) again = pure tt
master_again none again = again

unfoldable pub master_wait : ℕ → Daemon → Others → Action
master_wait zero d o w = (hangs, w)
master_wait (suc fuel) d o w =
    (do n ← get_write_master d o; master_again n (do sleep 1; master_wait fuel d o)) w

unfoldable pub wait_for_write_master : ℕ → Daemon → Others → Action
wait_for_write_master fuel d o = do new_cluster d o; master_wait fuel d o
