-- ===== src/Pg/Ensures.antt =====
-- What the calls of pg/pg.go leave on the servers.
use rdpg_boshrelease.Base.{
  String, ◌≡◌, refl, true, false, List, ◌∷◌, ◌==◌, not, member, arith, to_lower, ◌⊎◌, inl, inr,
  eq_iff, first, eq_refl, any_of_first, first_satisfies, some, none, sym, ◌∙◌, subst, first-none,
}
use rdpg_boshrelease.World.{
  World, Server, Error, no_rows, message, IsMessage, get_row, Result, ok, err, panics, hangs, Exec,
  update, attempt, ◌>>=◌, ◌>>◌,
}
use rdpg_boshrelease.World.Triple.{
  Triple, Post, Triple-pure, Triple-raise, Triple-if, Triple-weaken, Triple-attempt, Triple-bind,
  Triple-call, Triple-step, Triple-get_row,
}
use rdpg_boshrelease.Pg.Conn.{Pg, set_database, connect, set, set_property, pg_uri, pg_dsn}
use rdpg_boshrelease.Pg.Statements.{
  has_user, Change, changed, refused, store, exec_server, create_role, alter_role,
}
use rdpg_boshrelease.Pg.Roles.{found, user_exists, create_user}

pub ip-set_database : (name : String) (p : Pg) → (set_database name p).ip ≡ p.ip
unfolding set_database set set_property pg_uri pg_dsn
ip-set_database name p = refl

-- The servers are those of `s`.
abbrev pub Servers : (String → Server) → World → Type 0
Servers s w = w.servers ≡ s

module _ (s : String → Server) where
  pub Triple-connect :
      (p : Pg) → Triple (Servers s) (connect p) (λ u. Servers s) (λ e w. IsMessage e × Servers s w)
  unfolding connect
  Triple-connect p = Triple-call (λ w rs h. h)

  -- A statement changes the one server as it says, or nothing.
  abbrev pub Applied : String → (Server → Change) → (String → Server) → Type 0
  Applied ip f s' = (t : Server) × (f (s ip) ≡ changed t) × (s' ≡ update s ip t)

  pub Triple-exec_server :
      (ip : String) (f : Server → Change)
      → Triple (Servers s) (exec_server ip f) (λ u w. Applied ip f w.servers) (λ e. Servers s)
  unfolding exec_server
  Triple-exec_server ip f =
      Triple-step (Triple-call (λ w rs h. h)) (λ e w h. h.1)
        λ u. record { at = λ w h. go w h (f (w.servers ip)) refl }
    where
      go :
          (w : World)
          → w.servers ≡ s
          → (c : Change) → f (w.servers ip) ≡ c
          → Post
              (λ (u : Unit {0}) w. Applied ip f w.servers)
              (λ e. Servers s)
              (store ip c w).0
              (store ip c w).1
      go w h (changed t) e = (t, rw (← h) e, rw h)
      go w h (refused x) e = h

  -- `UserExists` and `DatabaseExists` after their query for a name among the known ones.
  pub Triple-found :
      (a : String) (known : World → List String) (l : List String)
      → ((w : World) → Servers s w → known w ≡ l)
      → (a == "") ≡ false
      → Triple
          (Servers s)
          (do n ← attempt (get_row (λ w. first (λ u. a == u) (known w))); found n)
          (λ b w. Servers s w × (b ≡ member a l))
          (λ e. Servers s)
  Triple-found a known l known_l named =
      Triple-bind
        (Triple-attempt {F = λ e. Servers s} (
          Triple-weaken (λ w h. h) (λ n w h. (h.0, rw (known_l w h.0) at (h.1)))
            (λ e w h. (h.0, λ q. rw (known_l w h.0) at (h.1 q)))
            (Triple-get_row (λ w rs h. h) (λ w. first (λ u. a == u) (known w)))))
        go
    where
      hit : (n : String) → first (λ u. a == u) l ≡ some n → not (n == "") ≡ member a l
      hit n h =
          let e : a ≡ n = (eq_iff a n).0 (first_satisfies (λ u. a == u) l n h) in
          rw (any_of_first (λ u. a == u) l n h, ← e, named)

      go :
          (r : Result String)
          → Triple
              (λ w.
                Post
                  (λ n w. Servers s w × (first (λ u. a == u) l ≡ some n))
                  (λ e w. Servers s w × (e ≡ no_rows → first (λ u. a == u) l ≡ none))
                  r
                  w)
              (found r)
              (λ b w. Servers s w × (b ≡ member a l))
              (λ e. Servers s)
      go (ok n) = Triple-pure _ λ w h. (h.0, hit n h.1)
      go (err no_rows) = Triple-pure _ λ w h. (h.0, sym (first-none _ l (h.1 refl)))
      go (err (message e)) = Triple-raise _ λ w h. h.0
      go panics = record { at = λ w h. absurd h }
      go hangs = record { at = λ w h. absurd h }

  pub Triple-user_exists :
      (p : Pg) (u : String)
      → (u == "") ≡ false
      → Triple
          (Servers s)
          (user_exists p u)
          (λ b w. Servers s w × (b ≡ has_user u (s p.ip)))
          (λ e. Servers s)
  unfolding user_exists set_database set set_property pg_uri pg_dsn
  Triple-user_exists p u named =
      Triple-step (Triple-connect (set_database "postgres" p)) (λ e w h. h.1)
        λ x. Triple-found u (λ w. (w.servers p.ip).users) (s p.ip).users (λ w h. rw h) named

-- A function's effect on the servers, from whatever servers it starts with.
pub Triple-servers :
    {A : Type 0} {R : (String → Server) → Type 0} {m : Exec A} {Q : A → World → Type 0}
    {E : Error → World → Type 0}
    → ((s : String → Server) → R s → Triple (Servers s) m Q E)
    → Triple (λ w. R w.servers) m Q E
Triple-servers t = record { at = λ w h. (t w.servers h).at w refl }

module _ (s : String → Server) (ip u : String) where
  -- The role is on its server beside every role that was there, and the other servers are as
  -- they were.
  abbrev pub UserAdded : (String → Server) → Type 0
  UserAdded s' =
      (has_user u (s' ip) ≡ true)
      × ((j : String) → has_user j (s ip) ≡ true → has_user j (s' ip) ≡ true)
      × ((other : String) → (other == ip) ≡ false → s' other ≡ s other)

  users-create_role :
      (a t : Server) → to_lower u ≡ u → create_role u a ≡ changed t → t.users ≡ u ∷ a.users
  unfolding create_role
  users-create_role a t lower e = ground arith

  create_role-UserAdded :
      (s' : String → Server) → to_lower u ≡ u → Applied s ip (create_role u) s' → UserAdded s'
  create_role-UserAdded s' lower (t, e, at_ip) =
      let self : s' ip ≡ t = rw (at_ip, eq_refl) in
      let added = users-create_role (s ip) t lower e in
      (rw (self, added, eq_refl), λ j h. rw (self, added) (ground arith), λ other h. rw (at_ip, h))

  alter_role-UserAdded :
      (s' s'' : String → Server) → UserAdded s' → Applied s' ip (alter_role u) s'' → UserAdded s''
  unfolding alter_role
  alter_role-UserAdded s' s'' (has, old, others) (t, e, at_ip) =
      let same : t ≡ s' ip = ground arith in
      let self : s'' ip ≡ s' ip = rw (at_ip, eq_refl, same) in
      (rw self has, λ j h. rw self (old j h), λ other h. rw (at_ip, h) (others other h))

abbrev pub Kept : (String → Server) → String → String → World → Type 0
Kept s ip u w = (w.servers ≡ s) ⊎ UserAdded s ip u w.servers

-- The two statements of `CreateUser`.
create_role-alter_role :
    (ip u : String) (s : String → Server)
    → to_lower u ≡ u
    → Triple
        (Servers s)
        (do exec_server ip (create_role u); exec_server ip (alter_role u))
        (λ x w. UserAdded s ip u w.servers)
        (λ e. Kept s ip u)
create_role-alter_role ip u s lower =
    Triple-step (Triple-exec_server s ip (create_role u)) (λ e w h. inl h)
      λ x. Triple-servers {R = Applied s ip (create_role u)} λ s' h.
        let added = create_role-UserAdded s ip u s' lower h in
        Triple-weaken (λ w k. k) (λ z w k. alter_role-UserAdded s ip u s' w.servers added k)
          (λ e w k. inr (subst (UserAdded s ip u) (sym k) added))
          (Triple-exec_server s' ip (alter_role u))

-- `CreateUser` returns: it neither panics nor waits for ever. If it returns no error, its server
-- has the role and every role that it had before, and the other servers are as they were. If it
-- returns an error, that holds too or no server has changed. The role's name is in lower case and not empty.
pub create_user-UserAdded :
    (p : Pg) (u pass : String) (s : String → Server)
    → to_lower u ≡ u
    → (u == "") ≡ false
    → Triple
        (Servers s)
        (create_user p u pass)
        (λ x w. UserAdded s p.ip u w.servers)
        (λ e. Kept s p.ip u)
unfolding create_user set_database set set_property pg_uri pg_dsn
create_user-UserAdded p u pass s lower named =
    Triple-step (Triple-connect s _) (λ e w h. inl h.1)
      λ x.
        Triple-step (Triple-user_exists s _ u named) (λ e w h. inl h)
          λ b.
            Triple-if b _ _
              (λ e. Triple-pure tt λ w h. rw h.0 (sym h.1 ∙ e, λ j k. k, λ other k. refl))
              (λ e.
                Triple-weaken (λ w h. h.0) (λ y w h. h) (λ x w h. h)
                  (create_role-alter_role p.ip u s lower))
