-- ===== src/Tests/Bootstraps.antt =====
-- The bootstrap of a node.
use rdpg_boshrelease.Base.{◌≡◌, ◌≢◌, refl, arith, some, [], ◌∷◌, ltb, if◌then◌else◌}
use rdpg_boshrelease.World.{World, message, err, empty_world, done, fails, call}
use rdpg_boshrelease.World.Triple.{Post}
use rdpg_boshrelease.Rdpg.{
  Daemon, Others, Setup, wait_for_cluster_nodes, insert_default_schedules, group_create, under_lock,
  local_node_name,
}
use rdpg_boshrelease.Rdpg.Nodes.{HasEnough, wait_for_cluster_nodes-HasEnough}
use rdpg_boshrelease.Rdpg.Electing.{Elected, group_create-Elected}
use rdpg_boshrelease.Rdpg.Hiding.{under_lock-IsSilent}
use rdpg_boshrelease.Rdpg.Defaults.{Handled, insert_default_schedules-Handled}

abbrev daemon : Daemon
daemon = record { cluster_id = "rdpgsc1"; my_ip = "10.0.0.1"; pg_port = "7432"; pg_pass = "secret" }

-- A second node registers after three seconds.
abbrev second_later : Others
second_later = record {
  nodes = λ name now. if ltb now 3 then [] else "10.0.0.2" ∷ [];
  bdr_nodes = λ now. "rdpg_10_0_0_1" ∷ "rdpg_10_0_0_2" ∷ [];
}

abbrev alone : World
alone = record empty_world { catalog = λ name. "10.0.0.1" ∷ [] }

wait_for_cluster_nodes-HasEnough_example :
    Post
      (λ (u : Unit {0}). HasEnough daemon second_later alone.catalog)
      (λ e w. w.catalog ≡ alone.catalog)
      (wait_for_cluster_nodes 3 daemon second_later alone).0
      (wait_for_cluster_nodes 3 daemon second_later alone).1
wait_for_cluster_nodes-HasEnough_example =
    (wait_for_cluster_nodes-HasEnough daemon second_later alone.catalog 3 2
        (λ m h. ground arith)).at
      alone (refl, omega arith)

group_create-Elected_example :
    Post
      (λ (u : Unit {0}). Elected alone.kv alone.servers daemon)
      (λ e w. w.kv ≡ alone.kv)
      (group_create daemon alone).0
      (group_create daemon alone).1
group_create-Elected_example =
    (group_create-Elected alone.kv alone.servers daemon).at alone (refl, refl)

node_name : local_node_name daemon ≡ "rdpg_10_0_0_1"
unfolding local_node_name
node_name = refl

-- The manager's schedules, after two errors of the sequence.
abbrev slow : World
slow = record empty_world {
  replies = fails "global sequence s is not initialized yet" ∷ fails "disk full" ∷ [];
}

insert_default_schedules-Handled_example :
    Post
      (λ (u : Unit {0}). Handled)
      (λ e. Handled)
      (insert_default_schedules 3 "rdpgmc" "manager" slow).0
      (insert_default_schedules 3 "rdpgmc" "manager" slow).1
insert_default_schedules-Handled_example =
    (insert_default_schedules-Handled "rdpgmc" "manager" 3).at slow (tt, omega arith)

abbrev setup : Setup
setup = record {
  role = "service";
  md5 = λ s. s;
  service_uuid = "s";
  plan_uuid = "p";
  to_regclass = λ w. some "cfsb.instances";
}

-- The node that the group is to be joined at is known, and it cannot be joined.
abbrev refused : World
refused = record alone {
  kv = λ key. some "10.0.0.2";
  replies = done ∷ fails "no route to host" ∷ [];
}

under_lock-IsSilent_example :
    (under_lock 2 daemon second_later setup refused).0 ≢ err (message "no route to host")
unfolding call
under_lock-IsSilent_example =
    under_lock-IsSilent 2 daemon second_later setup refused refl (message "no route to host")
