-- ===== src/World/Holding.antt =====
-- The rdpg database and the locks that the process holds: rules for locks, statements and sleeps.
use rdpg_boshrelease.Base.{
  String, ◌≡◌, refl, false, List, [], ◌∷◌, ◌==◌, not, member, select, arith, eq_refl, eq_iff,
}
use rdpg_boshrelease.World.State.{Reply, done, fails, no_channel, World, Request}
use rdpg_boshrelease.World.Rows.{Db}
use rdpg_boshrelease.World.Monad.{modify}
use rdpg_boshrelease.World.Calls.{exec_db, lock, unlock, release, granted, send}
use rdpg_boshrelease.World.Triple.{
  Post, Triple, Triple-bind, Triple-step, Triple-call, Triple-weaken, Triple-when, Triple-unless,
}

-- The database is `d`, and the keys `h` are held.
abbrev pub Holds : Db → List String → World → Type 0
Holds d h w = (w.db ≡ d) × (w.held ≡ h)

select-absent :
    (k : String) (h : List String) → member k h ≡ false → select (λ j. not (j == k)) h ≡ h
select-absent k [] e = refl
select-absent k (j ∷ h) e = ground (arith, select-absent k h, eq_iff j k, eq_iff k j)

pub release_head :
    (k : String) (h : List String) → member k h ≡ false → select (λ j. not (j == k)) (k ∷ h) ≡ h
release_head k h e = rw eq_refl (select-absent k h e)

module _ (d : Db) (h : List String) where
  pub Triple-lock :
      (k : String)
      → member k h ≡ false
      → Triple (Holds d h) (lock k) (λ u. Holds d (k ∷ h)) (λ e. Holds d h)
  unfolding lock
  Triple-lock k free =
      Triple-step (Triple-call (λ w rs p. p)) (λ e w p. p.1)
        λ u.
          Triple-unless _ _ (λ w. member k w.held) (λ w p. rw p.1 free)
            record { at = λ w p. go w w.replies p }
    where
      go :
          (w : World) (rs : List Reply)
          → Holds d h w
          → Post
              (λ (u : Unit {0}). Holds d (k ∷ h))
              (λ e. Holds d h)
              (granted k rs w).0
              (granted k rs w).1
      go w [] p = (p.0, rw p.1)
      go w (done ∷ rs) p = (p.0, rw p.1)
      go w (fails s ∷ rs) p = p
      go w (no_channel ∷ rs) p = p

  -- The key is released, whether the call fails or not.
  pub Triple-unlock :
      (k : String)
      → member k h ≡ false
      → Triple (Holds d (k ∷ h)) (unlock k) (λ u. Holds d h) (λ e. Holds d h)
  unfolding unlock release
  Triple-unlock k free =
      Triple-when _ _ (λ w. member k w.held) (λ w p. rw (p.1, eq_refl))
        (Triple-bind {R = λ u. Holds d h} {m = modify (release k)}
          (record { at = λ w p. (p.0, rw p.1 (release_head k h free)) })
          λ u. Triple-weaken (λ w p. p) (λ v w p. p) (λ e w p. p.1) (Triple-call (λ w rs p. p)))

  pub Triple-statement :
      (f : Db → Db) → Triple (Holds d h) (exec_db f) (λ u. Holds (f d) h) (λ e. Holds d h)
  unfolding exec_db
  Triple-statement f =
      Triple-step (Triple-call (λ w rs p. p)) (λ e w p. p.1)
        λ u. record { at = λ w p. (rw p.0, p.1) }

  pub Triple-send : (r : Request) → Triple (Holds d h) (send r) (λ u. Holds d h) (λ e. Holds d h)
  unfolding send
  Triple-send r =
      Triple-step (Triple-call (λ w rs p. p)) (λ e w p. p.1) λ u. record { at = λ w p. p }
