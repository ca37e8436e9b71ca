-- ===== src/Pg/Creating.antt =====
-- What `CreateDatabase` of pg/pg.go leaves on the servers.
use rdpg_boshrelease.Base.{
  String, ◌≡◌, refl, true, false, ◌∷◌, ◌==◌, arith, to_lower, ◌⊎◌, inl, inr, eq_refl, subst, sym,
  ◌∙◌,
}
use rdpg_boshrelease.World.{World, Server}
use rdpg_boshrelease.World.Triple.{
  Triple, Triple-given, Triple-pure, Triple-raise, Triple-if, Triple-weaken, Triple-step,
  Triple-logged,
}
use rdpg_boshrelease.Pg.Conn.{Pg, set_database, set, set_property, pg_uri, pg_dsn}
use rdpg_boshrelease.Pg.Statements.{
  names, has_user, has_database, Change, changed, exec_server, create_db, revoke_public, grant_all,
}
use rdpg_boshrelease.Pg.Databases.{create_owned, create_missing, create_database}
use rdpg_boshrelease.Pg.Ensures.{
  Servers, Applied, Triple-connect, Triple-exec_server, Triple-user_exists, Triple-servers,
}
use rdpg_boshrelease.Pg.Dropping.{Triple-database_exists}

module _ (s : String → Server) (ip d : String) where
  -- The database is on its server beside every database that was there, and the other servers are
  -- as they were.
  abbrev pub DatabaseAdded : (String → Server) → Type 0
  DatabaseAdded s' =
      (has_database d (s' ip) ≡ true)
      × ((j : String) → has_database j (s ip) ≡ true → has_database j (s' ip) ≡ true)
      × ((other : String) → (other == ip) ≡ false → s' other ≡ s other)

  abbrev pub DatabaseKept : World → Type 0
  DatabaseKept w = (w.servers ≡ s) ⊎ DatabaseAdded w.servers

  -- A statement that leaves its server as it is.
  abbrev pub Idle : (Server → Change) → Type 0
  Idle f = (a t : Server) → f a ≡ changed t → t ≡ a

  Idle-DatabaseAdded :
      (f : Server → Change) (s' s'' : String → Server)
      → Idle f
      → DatabaseAdded s'
      → Applied s' ip f s''
      → DatabaseAdded s''
  Idle-DatabaseAdded f s' s'' idle (has, old, others) (t, e, at_ip) =
      let self : s'' ip ≡ s' ip = rw (at_ip, eq_refl) (idle (s' ip) t e) in
      (rw self has, λ j h. rw self (old j h), λ other h. rw (at_ip, h) (others other h))

  create_db-DatabaseAdded :
      (owner : String) (s' : String → Server)
      → to_lower d ≡ d
      → Applied s ip (create_db d owner) s'
      → DatabaseAdded s'
  unfolding create_db
  create_db-DatabaseAdded owner s' lower (t, e, at_ip) =
      let self : s' ip ≡ t = rw (at_ip, eq_refl) in
      let added : names t ≡ d ∷ names (s ip) = ground arith in
      (rw (self, added, eq_refl), λ j h. rw (self, added) (ground arith), λ other h. rw (at_ip, h))

  revoke_public-Idle : Idle (revoke_public d)
  unfolding revoke_public
  revoke_public-Idle a t e = ground arith

  grant_all-Idle : (owner : String) → Idle (grant_all d owner)
  unfolding grant_all
  grant_all-Idle owner a t e = ground arith

  -- A statement that leaves its server as it is, run where the database is there.
  Triple-Idle :
      (f : Server → Change)
      → Idle f
      → Triple
          (λ w. DatabaseAdded w.servers)
          (exec_server ip f)
          (λ x w. DatabaseAdded w.servers)
          (λ e w. DatabaseAdded w.servers)
  Triple-Idle f idle = Triple-servers {R = DatabaseAdded} λ s' h.
      Triple-weaken (λ w k. k) (λ x w k. Idle-DatabaseAdded f s' w.servers idle h k)
        (λ e w k. subst DatabaseAdded (sym k) h) (Triple-exec_server s' ip f)

Triple-create_owned :
    (p : Pg) (d owner : String) (s : String → Server)
    → to_lower d ≡ d
    → Triple
        (Servers s)
        (create_owned p d owner)
        (λ x w. DatabaseAdded s p.ip d w.servers)
        (λ e. DatabaseKept s p.ip d)
unfolding create_owned
Triple-create_owned p d owner s lower =
    Triple-step
      (Triple-weaken (λ w h. h) (λ x w h. create_db-DatabaseAdded s p.ip d owner w.servers lower h)
        (λ e w h. h) (Triple-exec_server s p.ip (create_db d owner)))
      (λ e w h. inl h)
      λ x.
        Triple-step
          (Triple-logged {F = λ e w. ⊥} (λ e w h. h)
            (Triple-Idle s p.ip d _ (revoke_public-Idle s p.ip d)))
          (λ e w h. absurd h)
          λ y.
            Triple-weaken (λ w h. h) (λ z w h. h) (λ e w h. inr h)
              (Triple-Idle s p.ip d _ (grant_all-Idle s p.ip d owner))

Triple-create_missing :
    (p : Pg) (d owner : String) (s : String → Server)
    → to_lower d ≡ d
    → (d == "") ≡ false
    → Triple
        (Servers s)
        (create_missing p d owner)
        (λ x w. DatabaseAdded s p.ip d w.servers)
        (λ e. DatabaseKept s p.ip d)
unfolding create_missing
Triple-create_missing p d owner s lower named =
    Triple-step (Triple-database_exists s p d named) (λ e w h. inl h)
      λ b.
        Triple-if b _ _ (λ e. Triple-pure tt λ w h. rw h.0 (sym h.1 ∙ e, λ j k. k, λ other k. refl))
          (λ e.
            Triple-weaken (λ w h. h.0) (λ y w h. h) (λ x w h. h)
              (Triple-create_owned p d owner s lower))

-- `CreateDatabase` returns. If it returns no error its server has the database and every database
-- that it had before, its owner was a role there, and the other servers are as they were. If it
-- returns an error, either no server has changed, or the database was created and a later
-- statement failed. The names are not empty, and the database's is in lower case.
pub create_database-DatabaseAdded :
    (p : Pg) (d owner : String) (s : String → Server)
    → to_lower d ≡ d
    → (d == "") ≡ false
    → (owner == "") ≡ false
    → Triple
        (Servers s)
        (create_database p d owner)
        (λ x w. (has_user owner (s p.ip) ≡ true) × DatabaseAdded s p.ip d w.servers)
        (λ e. DatabaseKept s p.ip d)
unfolding create_database set_database set set_property pg_uri pg_dsn
create_database-DatabaseAdded p d owner s lower named owned =
    Triple-step (Triple-connect s _) (λ e w h. inl h.1)
      λ x.
        Triple-step (Triple-user_exists s _ owner owned) (λ e w h. inl h)
          λ b.
            Triple-if b _ _
              (λ e. Triple-given λ w h.
                Triple-weaken (λ v k. k.0) (λ y v k. (sym h.1 ∙ e, k)) (λ e' v k. k)
                  (Triple-create_missing _ d owner s lower named))
              (λ e. Triple-raise _ λ w h. inl h.0)
