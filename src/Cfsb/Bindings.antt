-- ===== src/Cfsb/Bindings.antt =====
-- cfsb/bindings.go, cfsb/credentials.go, cfsb/instances.go, and `isAuthorized` of cfsb/api.go.
use rdpg_boshrelease.Base.{
  ℕ, ◌+◌, String, ◌<>◌, ◌&&◌, ◌==◌, Option, none, some, List, [], ◌∷◌, ◌++◌, is_null, is_set, first,
  set_where, to_lower, word_chars, split, if◌then◌else◌,
}
use rdpg_boshrelease.World.{
  InstanceRow, BindingRow, Db, Error, no_rows, message, Result, ok, err, panics, hangs, Exec,
  Action, pure, raise, panic, hang, gets, attempt, error_of, return_error, call, query, get_row,
  exec_db, ◌>>=◌, ◌>>◌,
}
use rdpg_boshrelease.Instances.{
  Instance, external_dns, uri, dsn, jdbc_uri, scan_assigned, scan_each, find_by_instance_id,
}

pub record Credentials : Type 0 where
  pub binding_id : String
  pub instance_id : String
  pub uri : String
  pub dsn : String
  pub jdbc_uri : String
  pub host : String
  pub port : String
  pub username : String
  pub password : String
  pub database : String

-- a binding before its credentials are known
pub record Binding : Type 0 where
  pub binding_id : String
  pub instance_id : String

abbrev pub binding_named : String → Db → Option BindingRow
binding_named id d = first (λ r. r.binding_id == to_lower id) d.bindings

-- `b.Find()`
unfoldable pub find_binding : String → Exec BindingRow
find_binding id =
    if id == ""
    then raise (message "Binding ID is empty, can not Find()")
    else do call; get_row (λ w. binding_named id w.db)

-- `c.Find()`, which reads the table of bindings too
unfoldable pub find_credentials : String → Exec BindingRow
find_credentials id =
    if id == ""
    then raise (message "Credentials ID is empty, can not Find()")
    else do call; get_row (λ w. binding_named id w.db)

unfoldable pub insert_credentials : Credentials → Db → Db
insert_credentials c d = record d {
  credentials =
      d.credentials
      ++ (record {
        instance_id = to_lower c.instance_id;
        binding_id = to_lower c.binding_id;
        host = c.host;
        port = c.port;
        dbuser = c.username;
        dbpass = c.password;
        dbname = c.database;
      }
          ∷ []);
}

-- `sqlx.Get` fills the fields of the columns that the query names.
abbrev pub with_ids : Credentials → BindingRow → Credentials
with_ids c row = record c { binding_id = row.binding_id; instance_id = row.instance_id }

abbrev pub insert_if_unknown : Credentials → Result BindingRow → Exec Credentials
insert_if_unknown c (ok row) = pure (with_ids c row)
insert_if_unknown c (err no_rows) = do exec_db (insert_credentials c); pure c
insert_if_unknown c (err (message e)) = raise (message e)
insert_if_unknown c panics = panic
insert_if_unknown c hangs = hang

-- `c.Create()`, with the credentials after it: `c.Find()` changes them to what it finds.
unfoldable pub create_credentials : Credentials → Exec Credentials
create_credentials c = do
  call
  found ← attempt (find_credentials c.binding_id)
  insert_if_unknown c found

-- The credentials after a `c.Create()` of which the error is logged.
abbrev pub after_create : Credentials → Result Credentials → Exec Credentials
after_create c (ok changed) = pure changed
after_create c (err e) = pure c
after_create c panics = panic
after_create c hangs = hang

unfoldable pub insert_binding : Binding → Db → Db
insert_binding b d = record d {
  bindings =
      d.bindings
      ++ (record {
        id = d.next_id;
        instance_id = to_lower b.instance_id;
        binding_id = to_lower b.binding_id;
        ineffective_at = none;
      }
          ∷ []);
  next_id = d.next_id + 1;
}

-- The credentials of a binding. The parts of the address are indexed without a look at their number.
abbrev pub credentials_at :
    Binding → Instance → String → String → String → List String → Exec Credentials
credentials_at b i uri dsn jdbc (host ∷ port ∷ rest) = pure (record {
  binding_id = b.binding_id;
  instance_id = b.instance_id;
  uri = uri;
  dsn = dsn;
  jdbc_uri = jdbc;
  host = host;
  port = port;
  username = i.user;
  password = i.pass;
  database = i.database;
})
credentials_at b i uri dsn jdbc [] = panic
credentials_at b i uri dsn jdbc (host ∷ []) = panic

-- An error of the INSERT is returned, after the credentials; one of theirs is only logged.
abbrev pub bind_if_unknown : Binding → Credentials → Result BindingRow → Exec Credentials
bind_if_unknown b c (ok row) = pure c
bind_if_unknown b c (err no_rows) = do
  r ← attempt (exec_db (insert_binding b))
  created ← attempt (create_credentials c)
  changed ← after_create c created
  return_error (error_of r)
  pure changed
bind_if_unknown b c (err (message e)) = raise (message e)
bind_if_unknown b c panics = panic
bind_if_unknown b c hangs = hang

-- `b.Create()`: the credentials
unfoldable pub create_binding : Binding → Exec Credentials
create_binding b = do
  i ← find_by_instance_id b.instance_id
  dns ← external_dns i
  u ← uri i
  d ← dsn i
  j ← jdbc_uri i
  c ← credentials_at b i u d j (split b':' dns)
  call
  found ← attempt (find_binding b.binding_id)
  bind_if_unknown b c found

unfoldable pub retire_binding : ℕ → String → Db → Db
retire_binding now id d = record d {
  bindings =
      set_where (λ r. r.binding_id == to_lower id) (λ r. record r { ineffective_at = some now })
        d.bindings;
}

-- `b.Remove()`
unfoldable pub remove_binding : String → Action
remove_binding id = do
  find_binding id
  call
  now ← gets (λ w. w.now)
  exec_db (retire_binding now id)

-- `c.Remove()`, which changes the table of bindings
unfoldable pub remove_credentials : String → Action
remove_credentials id = do
  find_credentials id
  call
  now ← gets (λ w. w.now)
  exec_db (retire_binding now id)

-- `NewServiceInstance`: the instance, and the error for what is missing
abbrev pub missing : Instance → Option Error
missing i =
    if i.service_id == ""
    then some (message "Service ID is required.")
    else if i.plan_id == ""
    then some (message "Plan ID is required.")
    else if i.organization_id == ""
    then some (message "Organization ID is required.")
    else if i.space_id == ""
    then some (message "Space ID is required.")
    else none

unfoldable pub new_service_instance :
    String → String → String → String → String → Instance × Option Error
new_service_instance instance_id service_id plan_id organization_id space_id =
    let identifier = to_lower (word_chars instance_id) in
    let i : Instance = record {
      cluster_id = "";
      instance_id = to_lower instance_id;
      service_id = to_lower service_id;
      plan_id = to_lower plan_id;
      organization_id = to_lower organization_id;
      space_id = to_lower space_id;
      database = "d" <> identifier;
      user = "u" <> identifier;
      pass = "";
    } in
    (i, missing i)

-- `Active()` of package cfsb: at most one instance
abbrev pub at_most_one : Option InstanceRow → List InstanceRow
at_most_one none = []
at_most_one (some r) = r ∷ []

unfoldable pub active_service_instances : Exec (List Instance)
active_service_instances = do
  call
  row ←
      query (λ w. first (λ r. is_set r.effective_at && is_null r.decommissioned_at) w.db.instances)
  scan_each (λ r. scan_assigned (record r { cluster_id = "" })) (at_most_one row)
