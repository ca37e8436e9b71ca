-- ===== src/Tests/Servers.antt =====
-- Runs on PostgreSQL servers (pg/pg.go and bdr/bdr.go).
use rdpg_boshrelease.Base.{
  leb, if◌then◌else◌, none, Option, some, String, ◌≡◌, refl, arith, true, false, [], ◌∷◌, ◌⊎◌,
  to_lower,
}
use rdpg_boshrelease.World.{World, IsMessage, World, Server, empty_server, empty_world, call}
use rdpg_boshrelease.World.Triple.{Post}
use rdpg_boshrelease.Pg.{
  wait_for_reg_class, Pg, new_pg, create_database, drop_database, bdr_group_join, has_user,
  is_conflict,
}
use rdpg_boshrelease.Pg.Dropping.{DatabaseDropped, drop_database-DatabaseDropped}
use rdpg_boshrelease.Pg.Creating.{DatabaseAdded, DatabaseKept, create_database-DatabaseAdded}
use rdpg_boshrelease.Pg.Ready.{PresentFrom, IsReady, wait_for_reg_class-IsReady}
use rdpg_boshrelease.Pg.Waiting.{Entered, bdr_group_join-Entered}
use rdpg_boshrelease.Bdr.{Bdr, create_user_on_nodes, create_database_on_nodes}
use rdpg_boshrelease.Bdr.Users.{nodes_at, UserOn, create_user_on_nodes-UserOn}
use rdpg_boshrelease.Bdr.Databases.{create_database_on_nodes-ReturnsNil}

abbrev node : Pg
node = new_pg "10.0.0.1" "7432" "postgres" "postgres" ""

abbrev cluster : Bdr
cluster = record { cluster_id = "rdpgsc1"; pg_port = "7432" }

abbrev blank : String → Server
blank ip = empty_server

abbrev listed : World
listed = record empty_world { catalog = λ name. "10.0.0.1" ∷ "10.0.0.2" ∷ [] }

create_database-DatabaseAdded_example :
    Post
      (λ (x : Unit {0}) w.
        (has_user "u1" (blank node.ip) ≡ true) × DatabaseAdded blank node.ip "d1" w.servers)
      (λ e. DatabaseKept blank node.ip "d1")
      (create_database node "d1" "u1" empty_world).0
      (create_database node "d1" "u1" empty_world).1
unfolding to_lower
create_database-DatabaseAdded_example =
    (create_database-DatabaseAdded node "d1" "u1" blank refl refl refl).at empty_world refl

drop_database-DatabaseDropped_example :
    Post
      (λ (x : Unit {0}) w. DatabaseDropped blank node.ip "d1" w.servers)
      (λ e w. w.servers ≡ blank)
      (drop_database node "d1" empty_world).0
      (drop_database node "d1" empty_world).1
unfolding to_lower
drop_database-DatabaseDropped_example =
    (drop_database-DatabaseDropped node "d1" blank refl refl).at empty_world refl

bdr_group_join-Entered_example :
    Post
      (λ (u : Unit {0}) w. Entered blank node.ip "d1" w.servers)
      (λ e w.
        (w.servers ≡ blank) ⊎ (Entered blank node.ip "d1" w.servers × (is_conflict e ≡ false)))
      (bdr_group_join 1 node "d1_1" "d1" node empty_world).0
      (bdr_group_join 1 node "d1_1" "d1" node empty_world).1
bdr_group_join-Entered_example =
    (bdr_group_join-Entered 1 node node "d1_1" "d1" blank).at empty_world (refl, omega arith)

-- The class that is made four seconds later.
abbrev made_later : World → Option String
made_later w = if leb 4 w.now then some "tasks.tasks" else none

made_later-PresentFrom : PresentFrom made_later "tasks.tasks" 4
made_later-PresentFrom w late = ground arith

wait_for_reg_class-IsReady_example :
    Post
      (λ (u : Unit {0}). IsReady made_later "tasks.tasks" 4)
      (λ e w. IsMessage e)
      (wait_for_reg_class 3 node made_later empty_world).0
      (wait_for_reg_class 3 node made_later empty_world).1
wait_for_reg_class-IsReady_example =
    (wait_for_reg_class-IsReady made_later "tasks.tasks" 4 3 2 0 node made_later-PresentFrom refl
        (omega arith)).at
      empty_world (omega arith, omega arith)

create_user_on_nodes-UserOn_example :
    Post
      (λ (x : Unit {0}) w.
        UserOn blank "u1" (nodes_at cluster ("10.0.0.1" ∷ "10.0.0.2" ∷ [])) w.servers)
      (λ e w. Unit {0})
      (create_user_on_nodes cluster "u1" "secret" listed).0
      (create_user_on_nodes cluster "u1" "secret" listed).1
unfolding to_lower call
create_user_on_nodes-UserOn_example =
    (create_user_on_nodes-UserOn cluster "u1" "secret" ("10.0.0.1" ∷ "10.0.0.2" ∷ []) blank refl
        refl).at
      listed (record { servers = refl; listed = refl; replied = refl })

create_database_on_nodes-ReturnsNil_example :
    Post
      (λ (x : Unit {0}) w. Unit {0})
      (λ e w. ⊥)
      (create_database_on_nodes cluster "d1" "u1" listed).0
      (create_database_on_nodes cluster "d1" "u1" listed).1
unfolding to_lower
create_database_on_nodes-ReturnsNil_example =
    (create_database_on_nodes-ReturnsNil cluster "d1" "u1" refl refl refl).at listed tt
