-- ===== src/Pg/Dropping.antt =====
-- What `DropDatabase` of pg/pg.go leaves on the servers.
use rdpg_boshrelease.Base.{
  String, ◌≡◌, refl, false, List, [], ◌∷◌, ◌==◌, map, member, arith, to_lower, eq_iff, eq_refl,
  delete_where, sym, ◌∙◌,
}
use rdpg_boshrelease.World.{Server}
use rdpg_boshrelease.World.Triple.{
  Triple, Triple-pure, Triple-if, Triple-weaken, Triple-bind, Triple-step,
}
use rdpg_boshrelease.Pg.Conn.{Pg, set_database, set, set_property, pg_uri, pg_dsn}
use rdpg_boshrelease.Pg.Statements.{names, has_database, drop_db}
use rdpg_boshrelease.Pg.Databases.{database_exists, drop_database}
use rdpg_boshrelease.Pg.Ensures.{Servers, Applied, Triple-connect, Triple-exec_server, Triple-found}

pub Triple-database_exists :
    (s : String → Server) (p : Pg) (d : String)
    → (d == "") ≡ false
    → Triple
        (Servers s)
        (database_exists p d)
        (λ b w. Servers s w × (b ≡ has_database d (s p.ip)))
        (λ e. Servers s)
unfolding database_exists set_database set set_property pg_uri pg_dsn
Triple-database_exists s p d named =
    Triple-step (Triple-connect s _) (λ e w h. h.1)
      λ x. Triple-found s d (λ w. names (w.servers p.ip)) (names (s p.ip)) (λ w h. rw h) named

-- The database is gone from its server, which has its other databases as before; the other
-- servers are as they were.
module _ (s : String → Server) (ip d : String) where
  abbrev pub DatabaseDropped : (String → Server) → Type 0
  DatabaseDropped s' =
      (has_database d (s' ip) ≡ false)
      × ((j : String) → (j == d) ≡ false → has_database j (s' ip) ≡ has_database j (s ip))
      × ((other : String) → (other == ip) ≡ false → s' other ≡ s other)

absent-delete :
    (d : String) (l : List (String × String))
    → member d (map (λ (n, o). n) (delete_where (λ (n, o). n == d) l)) ≡ false
absent-delete d [] = refl
absent-delete d ((n, o) ∷ l) = ground (arith, absent-delete d l, eq_iff n d, eq_iff d n)

other-delete :
    (d j : String) (l : List (String × String))
    → (j == d) ≡ false
    → member j (map (λ (n, o). n) (delete_where (λ (n, o). n == d) l))
      ≡ member j (map (λ (n, o). n) l)
other-delete d j [] h = refl
other-delete d j ((n, o) ∷ l) h =
    ground (arith, other-delete d j l h, eq_iff n d, eq_iff j d, eq_iff j n)

drop_db-DatabaseDropped :
    (s s' : String → Server) (ip d : String)
    → to_lower d ≡ d
    → Applied s ip (drop_db d) s'
    → DatabaseDropped s ip d s'
unfolding drop_db
drop_db-DatabaseDropped s s' ip d lower (t, e, at_ip) =
    let self : s' ip ≡ t = rw (at_ip, eq_refl) in
    let left : names t ≡ map (λ (n, o). n) (delete_where (λ (n, o). n == d) (s ip).databases) =
      ground arith in
    (
      rw (self, left, absent-delete d),
      λ j h. rw (self, left) (other-delete d j (s ip).databases h),
      λ other h. rw (at_ip, h),
    )

-- `DropDatabase` returns. If it returns no error the database is gone from its server, whether it
-- was there or not, the server has its other databases as before, and the other servers are as
-- they were. If it returns an error no server has changed. The name is in lower case and not empty.
pub drop_database-DatabaseDropped :
    (p : Pg) (d : String) (s : String → Server)
    → to_lower d ≡ d
    → (d == "") ≡ false
    → Triple
        (Servers s)
        (drop_database p d)
        (λ x w. DatabaseDropped s p.ip d w.servers)
        (λ e. Servers s)
unfolding drop_database set_database set set_property pg_uri pg_dsn
drop_database-DatabaseDropped p d s lower named =
    Triple-step (Triple-connect s _) (λ e w h. h.1)
      λ x. Triple-bind (Triple-database_exists s _ d named) λ b.
        Triple-if b _ _
          (λ e.
            Triple-weaken (λ w h. h.0) (λ y w h. drop_db-DatabaseDropped s w.servers p.ip d lower h)
              (λ x w h. h) (Triple-exec_server s p.ip (drop_db d)))
          (λ e. Triple-pure tt λ w h. rw h.0 (sym h.1 ∙ e, λ j k. refl, λ other k. refl))
