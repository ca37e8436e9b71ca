-- ===== src/Tests/Provisions.antt =====
-- Runs on the table of instances (package instances).
use rdpg_boshrelease.Base.{true, ◌⊎◌, ◌+◌, ◌≡◌, refl, arith, none, some, [], ◌∷◌}
use rdpg_boshrelease.World.{
  World, InstanceRow, Db, ok, err, hangs, empty_db, empty_world, message, call, exec_db, query,
  get_row, lock, unlock, release, service, send,
}
use rdpg_boshrelease.World.Triple.{Post}
use rdpg_boshrelease.Instances.{
  assign, Instance, lock_key, assign_database, assign_and_tell, find_by_database, lock_instance,
  unlock_instance, provision_loop, provision,
}
use rdpg_boshrelease.Instances.Provisioned.{Provisioned, Unfinished}
use rdpg_boshrelease.Instances.Provisioning.{provision-Provisioned}
use rdpg_boshrelease.Instances.Assigning.{fails_first, Table, assign-Assigned}
use rdpg_boshrelease.Instances.Leaks.{until_update, provision-leaks_lock}

abbrev free_row : InstanceRow
free_row = record {
  id = 1;
  cluster_id = "rdpgsc1";
  instance_id = none;
  service_id = none;
  plan_id = none;
  organization_id = none;
  space_id = none;
  dbname = "d1";
  dbuser = "u1";
  dbpass = "p1";
  created_at = 5;
  effective_at = some 6;
  ineffective_at = none;
  decommissioned_at = none;
}

abbrev one_free : Db
one_free = record empty_db { instances = free_row ∷ [] }

abbrev asking : Instance
asking = record {
  cluster_id = "";
  instance_id = "i1";
  service_id = "s1";
  plan_id = "pl1";
  organization_id = "o1";
  space_id = "sp1";
  database = "";
  user = "";
  pass = "";
}

abbrev made : Instance
made = record asking { cluster_id = "rdpgsc1"; database = "d2"; user = "u2"; pass = "p2" }

abbrev stocked : World
stocked = record empty_world { db = one_free }

provision-Provisioned_example :
    Post
      (λ j w. Provisioned one_free asking j w.db × (w.held ≡ []))
      (λ e. Unfinished one_free asking)
      (provision (1 + 3) asking stocked).0
      (provision (1 + 3) asking stocked).1
provision-Provisioned_example =
    (provision-Provisioned 1 asking one_free).at stocked ((refl, refl), omega arith)

assign-Assigned_example :
    Post
      (λ (u : Unit {0}). Table (assign_database made one_free).instances)
      (λ e w.
        (Table one_free.instances w × (fails_first [] ≡ true))
        ⊎ Table (assign_database made one_free).instances w)
      (assign 1 "rdpgsc1" made stocked).0
      (assign 1 "rdpgsc1" made stocked).1
assign-Assigned_example =
    (assign-Assigned 1 "rdpgsc1" made one_free []).at stocked (((refl, refl), omega arith), refl)

abbrev refused : World
refused = record stocked { held = []; replies = until_update "disk full" }

provision-leaks_lock_example :
    ((provision 1 asking refused).0 ≡ err (message "disk full"))
    × ((provision 1 made (provision 1 asking refused).1).0 ≡ hangs)
provision-leaks_lock_example =
    provision-leaks_lock 0 0 asking made stocked "disk full" free_row free_row refl refl

-- The request is given the one available database.
provision_given :
    (provision 1 asking stocked).0
    ≡ ok (record asking { cluster_id = "rdpgsc1"; database = "d1"; user = "u1"; pass = "p1" })
unfolding provision provision_loop call exec_db query get_row lock unlock release service send
    find_by_database lock_instance unlock_instance lock_key assign_and_tell assign_database
provision_given = refl
