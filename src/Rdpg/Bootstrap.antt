-- ===== src/Rdpg/Bootstrap.antt =====
-- rdpg/bootstrap.go. The address that the Consul agent tells, and what PostgreSQL says of the class
-- cfsb.instances, are arguments.
use Prim.Native.Char.{Char, code}
use rdpg_boshrelease.Base.{
  ℕ, String, ◌<>◌, ◌==◌, Bool, true, false, ◌&&◌, Option, none, some, List, [], ◌∷◌, leb, member,
  if◌then◌else◌,
}
use rdpg_boshrelease.World.{
  World, message, Reply, done, fails, no_channel, update, Result, ok, err, panics, hangs, Exec,
  Action, pure, raise, panic, hang, modify, attempt, logged, error_of, return_error, call, query,
  unlock, ◌>>=◌, ◌>>◌,
}
use rdpg_boshrelease.Pg.{
  new_pg, connect, create_user, grant_user_privileges, create_database, create_extensions,
  bdr_group_create, bdr_group_join, wait_for_reg_class,
}
use rdpg_boshrelease.Services.{new_service, configure}
use rdpg_boshrelease.Tasks.{is_service_cluster}
use rdpg_boshrelease.Rdpg.Cluster.{
  Daemon, Others, register_service, register_node, new_cluster, set_write_master,
  wait_for_cluster_nodes, wait_for_bdr_nodes, wait_for_write_master,
}
use rdpg_boshrelease.Rdpg.Schema.{init_schema}

-- What the bootstrap uses besides: the role, the function `md5`, the identifiers that PostgreSQL
-- draws, and its answer for the class.
pub record Setup : Type 0 where
  pub role : String
  pub md5 : String → String
  pub service_uuid : String
  pub plan_uuid : String
  pub to_regclass : World → Option String

-- the steps of `initialBootstrap` on the node's own server
unfoldable pub prepare_server : Daemon → Action
prepare_server d = do
  let p = new_pg "127.0.0.1" d.pg_port "postgres" "postgres" ""
  create_user p "rdpg" d.pg_pass
  create_user p "health" "check"
  grant_user_privileges p "rdpg" ("SUPERUSER" ∷ "CREATEDB" ∷ "CREATEROLE" ∷ "INHERIT" ∷ [])
  create_database p "rdpg" "rdpg"
  create_database p "health" "health"
  create_extensions p "rdpg" ("btree_gist" ∷ "bdr" ∷ "pgcrypto" ∷ [])

-- `r.initialBootstrap()`
unfoldable pub initial_bootstrap : ℕ → Daemon → Others → Action
initial_bootstrap fuel d o = do prepare_server d; register_node d; wait_for_cluster_nodes fuel d o

unfoldable pub bootstrap_key : Daemon → String
bootstrap_key d = "rdpg/" <> d.cluster_id <> "/bootstrap/lock"

-- `r.bootstrapLock()`: without a channel it returns false and no error.
abbrev pub locked_if : String → List Reply → Exec Bool
locked_if key [] w = (ok true, record w { replies = []; held = key ∷ w.held })
locked_if key (done ∷ rs) w = (ok true, record w { replies = rs; held = key ∷ w.held })
locked_if key (fails s ∷ rs) w = (err (message s), record w { replies = rs })
locked_if key (no_channel ∷ rs) w = (ok false, record w { replies = rs })

unfoldable pub bootstrap_lock : Daemon → Exec Bool
bootstrap_lock d = do
  call
  λ w.
      if member (bootstrap_key d) w.held
      then (hangs, w)
      else locked_if (bootstrap_key d) w.replies w

-- `r.bootstrapUnlock()`
unfoldable pub bootstrap_unlock : Daemon → Action
bootstrap_unlock d = logged (unlock (bootstrap_key d))

unfoldable pub join_key : Daemon → String
join_key d = "rdpg/" <> d.cluster_id <> "/bdr/join/ip"

-- `r.getKey(key)`: empty if the key is not set
abbrev pub value_of : Option String → String
value_of none = ""
value_of (some v) = v

unfoldable pub get_key : String → Exec String
get_key key = do v ← query (λ w. w.kv key); pure (value_of v)

-- `kv.Put(...)`
unfoldable pub put_key : String → String → Action
put_key key v = do call; modify (λ w. record w { kv = update w.kv key (some v) })

-- `re.ReplaceAll([]byte(myIP), []byte("_"))` with the expression `[^0-9]+`; the flag tells whether the
-- character before was replaced
abbrev pub is_digit_char : Char → Bool
is_digit_char c = leb b'0' (code c) && leb (code c) b'9'

abbrev pub underscored : Bool → String → String
underscored replaced String.[] = ""
underscored replaced (String.◌∷◌ c s) =
    let copied = underscored false s in
    let skipped = underscored true s in
    if is_digit_char c then String.◌∷◌ c copied else if replaced then skipped else "_" <> skipped

unfoldable pub local_node_name : Daemon → String
local_node_name d = "rdpg_" <> underscored false d.my_ip

-- `r.bdrGroupCreate()`
abbrev pub create_group : Daemon → String → Action
create_group d v =
    if v == ""
    then (do
      bdr_group_create (new_pg d.my_ip d.pg_port "rdpg" "rdpg" d.pg_pass) (local_node_name d) "rdpg"
      put_key (join_key d) d.my_ip)
    else pure tt

unfoldable pub group_create : Daemon → Action
group_create d = do v ← get_key (join_key d); create_group d v

-- `r.bdrGroupJoin()`, with `bdrJoinIP`
unfoldable pub group_join : ℕ → Daemon → String → Action
group_join fuel d join_ip =
    bdr_group_join fuel (new_pg d.my_ip d.pg_port "rdpg" "rdpg" d.pg_pass) (local_node_name d)
      "rdpg" (new_pg join_ip d.pg_port "rdpg" "rdpg" d.pg_pass)

-- `r.leaderBootstrap(role)`: an error of the group's creation is only logged.
unfoldable pub leader_bootstrap : ℕ → Daemon → Others → Setup → Action
leader_bootstrap fuel d o s = do
  logged (group_create d)
  bootstrap_unlock d
  wait_for_bdr_nodes fuel d o
  init_schema fuel d o s.role s.service_uuid s.plan_uuid
  new_cluster d o
  set_write_master d d.my_ip

-- `r.nonLeaderBootstrap(role)`
abbrev pub after_join : ℕ → Daemon → Others → Setup → Result (Unit {0}) → Action
after_join fuel d o s (err e) = do bootstrap_unlock d; raise e
after_join fuel d o s (ok u) = do
  bootstrap_unlock d
  logged (wait_for_bdr_nodes fuel d o)
  let p = new_pg "127.0.0.1" d.pg_port "rdpg" "rdpg" d.pg_pass
  connect p
  logged (wait_for_reg_class fuel p s.to_regclass)
  wait_for_write_master fuel d o
after_join fuel d o s panics = panic
after_join fuel d o s hangs = hang

unfoldable pub non_leader_bootstrap : ℕ → Daemon → Others → Setup → String → Action
non_leader_bootstrap fuel d o s join_ip = do
  joined ← attempt (group_join fuel d join_ip)
  after_join fuel d o s joined

-- `r.reconfigureServices()`: the error that it returns is never set.
unfoldable pub reconfigure_services : Daemon → Setup → Action
reconfigure_services d s = do
  logged (configure s.md5 d.cluster_id d.pg_port (new_service "pgbdr"))
  logged (configure s.md5 d.cluster_id d.pg_port (new_service "pgbouncer"))
  logged (configure s.md5 d.cluster_id d.pg_port (new_service "haproxy"))

-- `r.registerConsulServices()`
unfoldable pub register_consul_services : Daemon → Action
register_consul_services d =
    if is_service_cluster d.cluster_id
    then (do
      logged (register_service "haproxy" d.my_ip)
      logged (register_service "pgbouncer" d.my_ip)
      logged (register_service "postgres" d.my_ip))
    else pure tt

-- `r.registerConsulWatches()` is not implemented.
unfoldable pub register_consul_watches : Action
register_consul_watches = pure tt

-- The part of `Bootstrap` under the lock. The errors but that of `getKey` are only logged: the one
-- that is returned is that of `registerConsulWatches`.
abbrev pub by_leader : ℕ → Daemon → Others → Setup → String → Action
by_leader fuel d o s join_ip =
    if join_ip == "" then leader_bootstrap fuel d o s else non_leader_bootstrap fuel d o s join_ip

unfoldable pub under_lock : ℕ → Daemon → Others → Setup → Action
under_lock fuel d o s = do
  join_ip ← get_key (join_key d)
  logged (by_leader fuel d o s join_ip)
  logged (reconfigure_services d s)
  logged (register_consul_services d)
  register_consul_watches

-- `newRDPG()`: is there a client? Without an answer of the agent its type assertion panics.
abbrev pub answered_by_agent : Result (Unit {0}) → Exec Bool
answered_by_agent (ok u) = pure true
answered_by_agent (err e) = panic
answered_by_agent panics = panic
answered_by_agent hangs = hang

abbrev pub client_made : Result (Unit {0}) → Exec Bool
client_made (ok u) = do info ← attempt call; answered_by_agent info
client_made (err e) = pure false
client_made panics = panic
client_made hangs = hang

unfoldable pub new_rdpg : Exec Bool
new_rdpg = do client ← attempt call; client_made client

-- `Bootstrap(role)`. Without a client `Register` calls a method of nil. Whether the lock was given is
-- not looked at; the lock is released, again, when it returns.
unfoldable pub bootstrap : ℕ → Daemon → Others → Setup → Action
bootstrap fuel d o s = do
  has_client ← new_rdpg
  if has_client then initial_bootstrap fuel d o else (do prepare_server d; panic)
  bootstrap_lock d
  r ← attempt (under_lock fuel d o s)
  bootstrap_unlock d
  return_error (error_of r)
