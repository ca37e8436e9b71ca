-- ===== src/World/Measure.antt =====
-- The number of replies that are left bounds the rounds of a loop that goes on after failed calls.
use rdpg_boshrelease.Base.{
  eq_refl, ℕ, zero, suc, ◌<◌, ◌≡◌, false, String, Option, none, some, List, [], ◌∷◌, length, member,
  arith,
}
use rdpg_boshrelease.World.Rows.{Db}
use rdpg_boshrelease.World.Holding.{Holds, release_head}
use rdpg_boshrelease.World.State.{World, Reply, done, fails, no_channel}
use rdpg_boshrelease.World.Calls.{
  call, answer, query, get_row, got, lock, granted, exec_db, unlock, release,
}
use rdpg_boshrelease.World.Monad.{modify}
use rdpg_boshrelease.World.Triple.{
  Triple-and, Triple-when, Triple-call, Post, Stable, Triple, Triple-weaken, Triple-bind,
  Triple-unless,
}

-- Fewer than `n` replies are left.
abbrev pub Few : ℕ → World → Type 0
Few n w = length w.replies < n

-- A call that fails has used up a reply.
pub Triple-call_measured :
    {P : World → Type 0} (n : ℕ)
    → Stable P
    → Triple (λ w. P w × Few (suc n) w) call (λ u w. P w × Few (suc n) w) (λ e w. P w × Few n w)
unfolding call
Triple-call_measured {P} n stable = record { at = λ w h. go w w.replies h }
  where
    go :
        (w : World) (rs : List Reply)
        → P w × (length rs < suc n)
        → Post
            (λ (u : Unit {0}) w. P w × Few (suc n) w)
            (λ e w. P w × Few n w)
            (answer rs w).0
            (answer rs w).1
    go w [] h = (stable w [] h.0, h.1)
    go w (done ∷ rs) h = (stable w rs h.0, omega arith)
    go w (fails e ∷ rs) h = (stable w rs h.0, omega arith)
    go w (no_channel ∷ rs) h = (stable w rs h.0, omega arith)

pub Triple-call-Few :
    {P : World → Type 0} (n : ℕ)
    → Stable P
    → Triple (λ w. P w × Few n w) call (λ u w. P w × Few n w) (λ e. P)
Triple-call-Few zero stable = record { at = λ w h. absurd (omega (arith, h.1)) }
Triple-call-Few (suc n) stable =
    Triple-weaken (λ w h. h) (λ u w h. h) (λ e w h. h.0) (Triple-call_measured n stable)

-- A call uses up no reply that is not there.
pub Triple-call_kept : (n : ℕ) → Triple (Few n) call (λ u. Few n) (λ e. Few n)
unfolding call
Triple-call_kept n = record { at = λ w h. go w w.replies h }
  where
    go :
        (w : World) (rs : List Reply)
        → length rs < n
        → Post (λ (u : Unit {0}). Few n) (λ e. Few n) (answer rs w).0 (answer rs w).1
    go w [] h = h
    go w (done ∷ rs) h = omega arith
    go w (fails e ∷ rs) h = omega arith
    go w (no_channel ∷ rs) h = omega arith

pub Triple-query_kept :
    {A : Type 0} (n : ℕ) (f : World → A) → Triple (Few n) (query f) (λ a. Few n) (λ e. Few n)
unfolding query
Triple-query_kept n f = Triple-bind (Triple-call_kept n) λ u. record { at = λ w h. h }

pub Triple-get_row_kept :
    {A : Type 0} (n : ℕ) (f : World → Option A)
    → Triple (Few n) (get_row f) (λ a. Few n) (λ e. Few n)
unfolding get_row query
Triple-get_row_kept {A} n f =
    Triple-bind (Triple-bind (Triple-call_kept n) λ u. record { at = λ w h. h })
      λ row. record { at = λ w h. go row w h }
  where
    go :
        (row : Option A) (w : World)
        → Few n w
        → Post (λ (a : A). Few n) (λ e. Few n) (got row w).0 (got row w).1
    go none w h = h
    go (some a) w h = h

-- A lock that is not acquired has used up a reply.
pub Triple-lock_kept :
    (d : Db) (h : List String) (k : String) (n : ℕ)
    → member k h ≡ false
    → Triple
        (λ w. Holds d h w × Few (suc n) w)
        (lock k)
        (λ u w. Holds d (k ∷ h) w × Few (suc n) w)
        (λ e w. Holds d h w × Few n w)
unfolding lock
Triple-lock_kept d h k n free =
    Triple-bind (Triple-call_measured {P = Holds d h} n (λ w rs p. p)) λ u.
      Triple-unless _ _ (λ w. member k w.held) (λ w p. rw p.0.1 free)
        record { at = λ w p. go w w.replies p }
  where
    go :
        (w : World) (rs : List Reply)
        → Holds d h w × (length rs < suc n)
        → Post
            (λ (u : Unit {0}) w. Holds d (k ∷ h) w × Few (suc n) w)
            (λ e w. Holds d h w × Few n w)
            (granted k rs w).0
            (granted k rs w).1
    go w [] p = ((p.0.0, rw p.0.1), p.1)
    go w (done ∷ rs) p = ((p.0.0, rw p.0.1), omega arith)
    go w (fails s ∷ rs) p = (p.0, omega arith)
    go w (no_channel ∷ rs) p = (p.0, omega arith)

pub Triple-lock_measured :
    (d : Db) (h : List String) (k : String) (n : ℕ)
    → member k h ≡ false
    → Triple
        (λ w. Holds d h w × Few (suc n) w)
        (lock k)
        (λ u. Holds d (k ∷ h))
        (λ e w. Holds d h w × Few n w)
Triple-lock_measured d h k n free =
    Triple-weaken (λ w p. p) (λ u w p. p.0) (λ e w p. p) (Triple-lock_kept d h k n free)

-- So has a statement that fails.
pub Triple-statement_measured :
    (d : Db) (h : List String) (f : Db → Db) (n : ℕ)
    → Triple
        (λ w. Holds d h w × Few (suc n) w)
        (exec_db f)
        (λ u w. Holds (f d) h w × Few (suc n) w)
        (λ e w. Holds d h w × Few n w)
unfolding exec_db
Triple-statement_measured d h f n =
    Triple-bind (Triple-call_measured {P = Holds d h} n (λ w rs p. p))
      λ u. record { at = λ w p. ((rw p.0.0, p.0.1), p.1) }

pub Triple-unlock_kept :
    (d : Db) (h : List String) (k : String) (n : ℕ)
    → member k h ≡ false
    → Triple
        (λ w. Holds d (k ∷ h) w × Few n w)
        (unlock k)
        (λ u w. Holds d h w × Few n w)
        (λ e w. Holds d h w × Few n w)
unfolding unlock release
Triple-unlock_kept d h k n free =
    Triple-when _ _ (λ w. member k w.held) (λ w p. rw (p.0.1, eq_refl))
      (Triple-bind {R = λ u w. Holds d h w × Few n w} {m = modify (release k)}
        (record { at = λ w p. ((p.0.0, rw p.0.1 (release_head k h free)), p.1) })
        λ u.
          Triple-weaken (λ w p. p) (λ v w p. p) (λ e w p. (p.0.1, p.1))
            (Triple-and (Triple-call {P = Holds d h} (λ w rs p. p)) (Triple-call_kept n)))

-- A lock that is not held is not released.
pub Triple-unlock_absent :
    {P : World → Type 0} (k : String)
    → ((w : World) → P w → member k w.held ≡ false)
    → Triple P (unlock k) (λ u w. ⊥) (λ e. P)
unfolding unlock
Triple-unlock_absent k absent =
    Triple-unless _ _ (λ w. member k w.held) absent (record { at = λ w p. p })
