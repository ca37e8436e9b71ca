-- ===== src/Bdr/Databases.antt =====
-- `CreateDatabase` and `DropDatabase` over the nodes of a cluster: their errors.
use rdpg_boshrelease.Base.{
  String, ◌≡◌, false, Option, none, some, List, [], ◌∷◌, ◌==◌, reverse, to_lower,
}
use rdpg_boshrelease.World.{Error, Result, ok, err, panics, hangs, Exec, Action, service}
use rdpg_boshrelease.World.Triple.{
  Post, Triple, Triple-pure, Triple-weaken, Triple-bind, Triple-step, Triple-attempt, Triple-query,
  Triple-logged,
}
use rdpg_boshrelease.Pg.{Pg, set_database, create_database, drop_database}
use rdpg_boshrelease.Pg.Ensures.{Triple-servers}
use rdpg_boshrelease.Pg.Dropping.{drop_database-DatabaseDropped}
use rdpg_boshrelease.Pg.Creating.{create_database-DatabaseAdded}
use rdpg_boshrelease.Bdr.{
  Bdr, pg_nodes, nodes_of, known_nodes, on_each, on_each_logged, drop_database_on_nodes, or_drop,
  error_after, create_database_on_nodes,
}

-- It returns, with or without an error.
abbrev pub Returns : {A : Type 0} → Exec A → Type 0
Returns m = Triple (λ w. Unit {0}) m (λ a w. Unit {0}) (λ e w. Unit {0})

-- It returns, and never an error.
abbrev pub ReturnsNil : {A : Type 0} → Exec A → Type 0
ReturnsNil m = Triple (λ w. Unit {0}) m (λ a w. Unit {0}) (λ e w. ⊥)

known_nodes-ReturnsNil : (b : Bdr) → ReturnsNil (known_nodes b)
unfolding known_nodes pg_nodes service
known_nodes-ReturnsNil b = Triple-bind (Triple-attempt nodes) go
  where
    nodes : Returns (pg_nodes b)
    nodes =
        Triple-step (Triple-query (λ w rs h. tt) (λ w. w.catalog b.cluster_id)) (λ e w h. tt)
          λ services. Triple-pure _ λ w h. tt

    go :
        (r : Result (List Pg))
        → Triple
            (λ w. Post (λ (a : List Pg) w. Unit {0}) (λ e w. Unit {0}) r w)
            (nodes_of r)
            (λ a w. Unit {0})
            (λ e w. ⊥)
    go (ok ps) = Triple-pure _ λ w h. tt
    go (err e) = Triple-pure _ λ w h. tt
    go panics = record { at = λ w h. h }
    go hangs = record { at = λ w h. h }

drop_database-Returns :
    (p : Pg) (d : String) → to_lower d ≡ d → (d == "") ≡ false → Returns (drop_database p d)
drop_database-Returns p d lower named = Triple-servers {R = λ s. Unit {0}} λ s h.
    Triple-weaken (λ w k. k) (λ x w k. tt) (λ e w k. tt)
      (drop_database-DatabaseDropped p d s lower named)

create_database-Returns :
    (p : Pg) (d owner : String)
    → to_lower d ≡ d
    → (d == "") ≡ false
    → (owner == "") ≡ false
    → Returns (create_database p d owner)
create_database-Returns p d owner lower named owned = Triple-servers {R = λ s. Unit {0}} λ s h.
    Triple-weaken (λ w k. k) (λ x w k. tt) (λ e w k. tt)
      (create_database-DatabaseAdded p d owner s lower named owned)

on_each_logged-ReturnsNil :
    (op : Pg → Action)
    → ((p : Pg) → Returns (op p))
    → (ps : List Pg) → ReturnsNil (on_each_logged op ps)
unfolding on_each_logged
on_each_logged-ReturnsNil op h [] = Triple-pure _ λ w k. tt
on_each_logged-ReturnsNil op h (p ∷ ps) =
    Triple-bind (Triple-logged (λ e w k. tt) (h p)) λ u. on_each_logged-ReturnsNil op h ps

pub on_each-Returns :
    (op : Pg → Action) → ((p : Pg) → Returns (op p)) → (ps : List Pg) → Returns (on_each op ps)
unfolding on_each
on_each-Returns op h [] = Triple-pure _ λ w k. tt
on_each-Returns op h (p ∷ ps) = Triple-bind (h p) λ u. on_each-Returns op h ps

-- `DropDatabase` of a cluster returns no error, whatever fails on its nodes or in Consul. The name
-- is in lower case and not empty.
pub drop_database_on_nodes-ReturnsNil :
    (b : Bdr) (d : String)
    → to_lower d ≡ d
    → (d == "") ≡ false
    → ReturnsNil (drop_database_on_nodes b d)
unfolding drop_database_on_nodes
drop_database_on_nodes-ReturnsNil b d lower named = Triple-bind (known_nodes-ReturnsNil b) λ found.
    on_each_logged-ReturnsNil _
      (λ p. drop_database-Returns (set_database "postgres" p) d lower named) (reverse found.0)

Triple-error_after :
    (e : Option Error) (ps : List Pg) (r : Result (Unit {0}))
    → Triple
        (λ w. Post (λ (u : Unit {0}) w. Unit {0}) (λ e w. Unit {0}) r w)
        (error_after e ps r)
        (λ a w. Unit {0})
        (λ e w. ⊥)
Triple-error_after e [] (ok u) = Triple-pure _ λ w h. tt
Triple-error_after e (p ∷ ps) (ok u) = Triple-pure _ λ w h. tt
Triple-error_after e [] (err x) = Triple-pure _ λ w h. tt
Triple-error_after e (p ∷ ps) (err x) = Triple-pure _ λ w h. tt
Triple-error_after e [] panics = record { at = λ w h. h }
Triple-error_after e (p ∷ ps) panics = record { at = λ w h. h }
Triple-error_after e [] hangs = record { at = λ w h. h }
Triple-error_after e (p ∷ ps) hangs = record { at = λ w h. h }

-- `CreateDatabase` of a cluster returns no error, whatever fails: not when Consul knows no nodes,
-- not when a node refuses the database, nor when the cleanup fails in its turn. The names are not
-- empty, and the database's is in lower case.
pub create_database_on_nodes-ReturnsNil :
    (b : Bdr) (d owner : String)
    → to_lower d ≡ d
    → (d == "") ≡ false
    → (owner == "") ≡ false
    → ReturnsNil (create_database_on_nodes b d owner)
unfolding create_database_on_nodes
create_database_on_nodes-ReturnsNil b d owner lower named owned =
    Triple-bind (known_nodes-ReturnsNil b) λ found.
      Triple-bind
        (Triple-attempt
          (on_each-Returns _ (λ p. create_database-Returns p d owner lower named owned) found.0))
        λ r. Triple-bind (Triple-error_after found.1 found.0 r) go
  where
    go : (e : Option Error) → ReturnsNil (or_drop b d e)
    go none = Triple-pure tt λ w h. tt
    go (some e) = drop_database_on_nodes-ReturnsNil b d lower named
