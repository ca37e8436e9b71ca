-- ===== src/Instances/Find.antt =====
-- instances/find.go: the queries on cfsb.instances.
use rdpg_boshrelease.Base.{
  String, ◌<>◌, Bool, false, ◌&&◌, ◌==◌, Option, none, some, List, [], ◌∷◌, is_null, is_set, select,
  first, to_lower,
}
use rdpg_boshrelease.World.{
  InstanceRow, no_rows, message, Result, ok, err, panics, hangs, Exec, pure, raise, panic, hang,
  attempt, call, query, get_row, ◌>>=◌, ◌>>◌,
}
use rdpg_boshrelease.Instances.Model.{Instance}

-- A NULL is no value for a Go string.
abbrev pub scanned : Option String → Exec String
scanned (some s) = pure s
scanned none = raise (message "converting NULL to string is unsupported")

-- `column = 'value'`, which does not hold of NULL
abbrev pub column_is : Option String → String → Bool
column_is none value = false
column_is (some s) value = s == value

-- A row of which the columns that identify the service instance are read too.
abbrev pub scan_assigned : InstanceRow → Exec Instance
scan_assigned r = do
  instance_id ← scanned r.instance_id
  service_id ← scanned r.service_id
  plan_id ← scanned r.plan_id
  organization_id ← scanned r.organization_id
  space_id ← scanned r.space_id
  pure (record {
    cluster_id = r.cluster_id;
    instance_id = instance_id;
    service_id = service_id;
    plan_id = plan_id;
    organization_id = organization_id;
    space_id = space_id;
    database = r.dbname;
    user = r.dbuser;
    pass = r.dbpass;
  })

-- A row of which they are not read.
abbrev pub scan_database : InstanceRow → Instance
scan_database r = record {
  cluster_id = r.cluster_id;
  instance_id = "";
  service_id = "";
  plan_id = "";
  organization_id = "";
  space_id = "";
  database = r.dbname;
  user = r.dbuser;
  pass = r.dbpass;
}

abbrev pub scan_each : (InstanceRow → Exec Instance) → List InstanceRow → Exec (List Instance)
scan_each scan [] = pure []
scan_each scan (r ∷ rs) = do i ← scan r; rest ← scan_each scan rs; pure (i ∷ rest)

-- `FindByInstanceID(instanceID)`: once connected, and in full
abbrev pub find_assigned : String → Exec Instance
find_assigned instance_id = do
  row ← get_row (λ w. first (λ r. column_is r.instance_id (to_lower instance_id)) w.db.instances)
  scan_assigned row

unfoldable pub find_by_instance_id : String → Exec Instance
find_by_instance_id instance_id = do call; find_assigned instance_id

-- `FindByDatabase(dbname)`, once connected and in full: `none` is the nil that it returns, with no error, for no rows.
abbrev pub found_database : Result InstanceRow → Exec (Option Instance)
found_database (ok row) = pure (some (scan_database row))
found_database (err no_rows) = pure none
found_database (err (message e)) = raise (message e)
found_database panics = panic
found_database hangs = hang

abbrev pub find_known : String → Exec (Option Instance)
find_known dbname = do
  row ← attempt (get_row (λ w. first (λ r. r.dbname == dbname) w.db.instances))
  found_database row

unfoldable pub find_by_database : String → Exec (Option Instance)
find_by_database dbname = do call; find_known dbname

abbrev pub is_active : InstanceRow → Bool
is_active r = is_set r.instance_id && is_null r.ineffective_at

abbrev pub is_available : InstanceRow → Bool
is_available r = is_null r.instance_id && (is_set r.effective_at && is_null r.ineffective_at)

-- `Active()`, with PostgreSQL's function `md5`. The cluster is not among its columns.
unfoldable pub active : (String → String) → Exec (List Instance)
active md5 = do
  call
  rows ← query (λ w. select is_active w.db.instances)
  scan_each
      (λ r.
        scan_assigned (record r { cluster_id = ""; dbpass = "md5" <> md5 (r.dbpass <> r.dbuser) }))
      rows

-- `All()`
unfoldable pub all : Exec (List Instance)
all = do call; rows ← query (λ w. w.db.instances); scan_each scan_assigned rows

-- `Available()`
unfoldable pub available : Exec (List Instance)
available = do
  call
  rows ← query (λ w. select is_available w.db.instances)
  scan_each (λ r. pure (scan_database r)) rows
