-- ===== src/Tasks/Reconcile.antt =====
-- tasks/reconcile.go and tasks/reconfigure.go. The keys of Consul's services, in the order in which
-- Go visits them, and the lists that the nodes of the clusters answer with, are arguments.
use Prim.Native.Char.{code}
use rdpg_boshrelease.Base.{
  String, Bool, true, false, ◌&&◌, Option, none, some, List, [], ◌∷◌, ◌++◌, eqb, leb, if◌then◌else◌,
}
use rdpg_boshrelease.World.{Exec, Action, pure, logged, call, service, send, ◌>>=◌, ◌>>◌}
use rdpg_boshrelease.Instances.{Instance, find_by_database, register, reconcile}
use rdpg_boshrelease.Services.{new_service, configure}

-- `re.MatchString(key)` with the expression `^rdpgsc[0-9]+$`
abbrev pub are_digits : String → Bool
are_digits String.[] = true
are_digits (String.◌∷◌ c s) = (leb b'0' (code c) && leb (code c) b'9') && are_digits s

abbrev pub is_number : String → Bool
is_number String.[] = false
is_number (String.◌∷◌ c s) = are_digits (String.◌∷◌ c s)

abbrev pub begins_number : String → String → Bool
begins_number String.[] key = is_number key
begins_number (String.◌∷◌ p ps) String.[] = false
begins_number (String.◌∷◌ p ps) (String.◌∷◌ c s) = eqb (code p) (code c) && begins_number ps s

unfoldable pub is_service_cluster : String → Bool
is_service_cluster key = begins_number "rdpgsc" key

-- a body that cannot be read has no instances
abbrev pub readable : Option (List Instance) → List Instance
readable none = []
readable (some is) = is

-- The request to the first node of a cluster. With no node the whole task returns, without an
-- error: `none`.
abbrev pub fetch_from :
    String
    → (String → Option (List Instance))
    → Exec (Option (List Instance))
    → List String
    → Exec (Option (List Instance))
fetch_from path answers rest [] = pure none
fetch_from path answers rest (ip ∷ ips) = do
  send (record { method = "GET"; address = ip; path = path; subject = "" })
  others ← rest
  pure (joined others)
  where
    joined : Option (List Instance) → Option (List Instance)
    joined none = none
    joined (some is) = some (readable (answers ip) ++ is)

-- the loop over the services
unfoldable pub fetch_each :
    String → (String → Option (List Instance)) → List String → Exec (Option (List Instance))
fetch_each path answers [] = pure (some [])
fetch_each path answers (key ∷ keys) =
    let rest = fetch_each path answers keys in
    if is_service_cluster key
    then (do ips ← service key; fetch_from path answers rest ips)
    else rest

abbrev pub register_unknown : Instance → Option Instance → Action
register_unknown i none = logged (register i)
register_unknown i (some known) = pure tt

unfoldable pub register_each : List Instance → Action
register_each [] = pure tt
register_each (i ∷ is) = do
  known ← find_by_database i.database
  register_unknown i known
  register_each is

unfoldable pub reconcile_each : List Instance → Action
reconcile_each [] = pure tt
reconcile_each (i ∷ is) = do reconcile i; reconcile_each is

-- once connected
abbrev pub once_fetched : (List Instance → Action) → Option (List Instance) → Action
once_fetched act none = pure tt
once_fetched act (some is) = do call; act is

-- `t.ReconcileAvailableDatabases(workRole)`
unfoldable pub reconcile_available_databases :
    (String → Option (List Instance)) → List String → Action
reconcile_available_databases answers keys = do
  call
  call
  fetched ← fetch_each "databases/available" answers keys
  once_fetched register_each fetched

-- `t.ReconcileAllDatabases(workRole)`
unfoldable pub reconcile_all_databases : (String → Option (List Instance)) → List String → Action
reconcile_all_databases answers keys = do
  call
  call
  fetched ← fetch_each "databases" answers keys
  once_fetched reconcile_each fetched

-- `t.Reconfigure(workRole)`, with what `Configure` reads
unfoldable pub reconfigure : (String → String) → String → String → Action
reconfigure md5 cluster pg_port = configure md5 cluster pg_port (new_service "pgbouncer")
