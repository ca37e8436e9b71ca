-- ===== src/Tests/Duties.antt =====
-- Backups, reconciliation and the files of pgbouncer.
use rdpg_boshrelease.Base.{
  ◌≡◌, refl, ◌⊎◌, String, true, false, Option, none, some, List, [], ◌∷◌, is_null, if◌then◌else◌,
  ◌==◌,
}
use rdpg_boshrelease.World.{World, Db, InstanceRow, empty_db, empty_world, done, fails}
use rdpg_boshrelease.World.Triple.{Post}
use rdpg_boshrelease.Instances.{Instance}
use rdpg_boshrelease.Services.{node_dir, ini_template, users_template, configure_pgbouncer}
use rdpg_boshrelease.Services.Bouncing.{IsWritten, IsUnwritten, configure_pgbouncer-Configured}
use rdpg_boshrelease.Tasks.{
  BackupParams, schedule_new_backups, back_up, reconcile_available_databases,
}
use rdpg_boshrelease.Tasks.Reconciling.{Sound, reconcile_tasks-Sound}
use rdpg_boshrelease.Tasks.Backing.{BacksOnce, schedule_new_backups-BacksOnce}
use rdpg_boshrelease.Tasks.Covering.{BacksAll, schedule_new_backups-BacksAll}
use rdpg_boshrelease.Tasks.Recording.{HasSchema, IsBackedUp, back_up-IsBackedUp}

abbrev row : InstanceRow
row = record {
  id = 1;
  cluster_id = "rdpgsc1";
  instance_id = some "i1";
  service_id = some "s1";
  plan_id = some "p1";
  organization_id = some "o1";
  space_id = some "sp1";
  dbname = "d1";
  dbuser = "u1";
  dbpass = "p1";
  created_at = 0;
  effective_at = some 0;
  ineffective_at = none;
  decommissioned_at = none;
}

abbrev one_database : Db
one_database = record empty_db { instances = row ∷ [] }

abbrev templates : String → Option String
templates path =
    if path == ini_template
    then some "[databases]"
    else if path == users_template
    then some "admin"
    else if path == node_dir
    then some ""
    else none

abbrev node : World
node = record empty_world { db = one_database; files = templates }

abbrev digest : String → String
digest s = s

configure_pgbouncer-Configured_example :
    Post
      (λ (u : Unit {0}) w.
        (is_null (templates node_dir) ≡ false × IsWritten digest "5432" one_database templates w)
        ⊎ (is_null (templates node_dir) ≡ true × (w.files ≡ templates)))
      (λ e w.
        IsUnwritten digest "5432" one_database templates w
        ⊎ IsWritten digest "5432" one_database templates w)
      (configure_pgbouncer digest "5432" node).0
      (configure_pgbouncer digest "5432" node).1
configure_pgbouncer-Configured_example =
    (configure_pgbouncer-Configured digest "5432" one_database templates).at node (refl, refl)

-- An INSERT fails.
abbrev troubled : World
troubled = record node { replies = done ∷ done ∷ done ∷ fails "no space" ∷ [] }

schedule_new_backups-BacksOnce_example :
    Post
      (λ (u : Unit {0}). BacksOnce)
      (λ e. BacksOnce)
      (schedule_new_backups "rdpgsc1" troubled).0
      (schedule_new_backups "rdpgsc1" troubled).1
schedule_new_backups-BacksOnce_example = (schedule_new_backups-BacksOnce "rdpgsc1").at troubled tt

schedule_new_backups-BacksAll_example :
    Post
      (λ (u : Unit {0}). BacksAll one_database)
      (λ e w. ⊥)
      (schedule_new_backups "rdpgsc1" node).0
      (schedule_new_backups "rdpgsc1" node).1
schedule_new_backups-BacksAll_example =
    (schedule_new_backups-BacksAll "rdpgsc1" one_database).at node (refl, refl)

abbrev params : BackupParams
params = record {
  pg_dump_path = "/usr/bin/pg_dump";
  pg_port = "7432";
  base_path = "/backups";
  database_name = "d1";
  base_file_name = "20150801120000";
  node = "10.0.0.1";
}

abbrev dumped : String → String
dumped extension = extension

back_up-IsBackedUp_example :
    Post
      (λ (u : Unit {0}). IsBackedUp dumped params [])
      (λ e w. HasSchema params [] w.db.history)
      (back_up dumped params node).0
      (back_up dumped params node).1
back_up-IsBackedUp_example =
    (back_up-IsBackedUp dumped params one_database templates).at node (refl, refl)

abbrev fetched : Instance
fetched = record {
  cluster_id = "rdpgsc1";
  instance_id = "";
  service_id = "";
  plan_id = "";
  organization_id = "";
  space_id = "";
  database = "d2";
  user = "u2";
  pass = "p2";
}

abbrev listed : String → Option (List Instance)
listed ip = some (fetched ∷ [])

abbrev manager : World
manager = record node { catalog = λ k. "10.0.1.1" ∷ [] }

reconcile_tasks-Sound_example :
    Post
      (λ (u : Unit {0}). Sound)
      (λ e. Sound)
      (reconcile_available_databases listed ("rdpgsc1" ∷ "consul" ∷ []) manager).0
      (reconcile_available_databases listed ("rdpgsc1" ∷ "consul" ∷ []) manager).1
reconcile_tasks-Sound_example =
    (reconcile_tasks-Sound listed ("rdpgsc1" ∷ "consul" ∷ [])).0.at manager ((refl, tt), refl)
