-- ===== src/World/Calm.antt =====
-- Calls that do not fail when no reply is left, in a run that may have begun with replies.
use rdpg_boshrelease.Base.{String, ◌≡◌, ◌≢◌, refl, ap, List, [], ◌∷◌, member}
use rdpg_boshrelease.World.State.{World, Reply, done, fails, no_channel}
use rdpg_boshrelease.World.Calls.{call, answer, query, lock, granted}
use rdpg_boshrelease.World.Triple.{Post, Triple, Stable, Triple-bind, Triple-unless}

-- No reply is left of a run that began with none; it began with `rs`.
abbrev pub Calm : List Reply → World → Type 0
Calm rs w = rs ≡ [] → w.replies ≡ []

module _ (rs : List Reply) {P : World → Type 0} (stable : Stable P) where
  -- A call that fails shows that there were replies.
  pub Triple-call-Calm :
      Triple (λ w. P w × Calm rs w) call (λ u w. P w × Calm rs w) (λ e w. P w × (rs ≢ []))
  unfolding call
  Triple-call-Calm = record { at = λ w p. go w w.replies p }
    where
      go :
          (w : World) (now : List Reply)
          → P w × (rs ≡ [] → now ≡ [])
          → Post
              (λ (u : Unit {0}) w. P w × Calm rs w)
              (λ e w. P w × (rs ≢ []))
              (answer now w).0
              (answer now w).1
      go w [] p = (stable w [] p.0, λ e. refl)
      go w (done ∷ now) p = (stable w now p.0, λ e. let q = p.1 e in absurd cc)
      go w (fails x ∷ now) p = (stable w now p.0, λ e. let q = p.1 e in cc)
      go w (no_channel ∷ now) p = (stable w now p.0, λ e. let q = p.1 e in absurd cc)

  pub Triple-query-Calm :
      {A : Type 0} (f : World → A)
      → Triple
          (λ w. P w × Calm rs w)
          (query f)
          (λ a w. (P w × Calm rs w) × (f w ≡ a))
          (λ e w. P w × (rs ≢ []))
  unfolding query
  Triple-query-Calm f = Triple-bind Triple-call-Calm λ u. record { at = λ w p. (p, refl) }

-- a lock, where this process holds none
pub Triple-lock-Calm :
    (rs : List Reply) {P : World → Type 0} (k : String)
    → Stable P
    → ((w : World) (h : List String) → P w → P (record w { held = h }))
    → Triple
        (λ w. (P w × (w.held ≡ [])) × Calm rs w)
        (lock k)
        (λ u w. (P w × (w.held ≡ k ∷ [])) × Calm rs w)
        (λ e w. (P w × (w.held ≡ [])) × (rs ≢ []))
unfolding lock
Triple-lock-Calm rs {P} k stable keeps =
    Triple-bind
      (Triple-call-Calm rs {P = λ w. P w × (w.held ≡ [])} (λ w now p. (stable w now p.0, p.1)))
      λ u.
        Triple-unless _ _ (λ w. member k w.held) (λ w p. rw p.0.1)
          record { at = λ w p. go w w.replies p }
  where
    go :
        (w : World) (now : List Reply)
        → (P w × (w.held ≡ [])) × (rs ≡ [] → now ≡ [])
        → Post
            (λ (u : Unit {0}) w. (P w × (w.held ≡ k ∷ [])) × Calm rs w)
            (λ e w. (P w × (w.held ≡ [])) × (rs ≢ []))
            (granted k now w).0
            (granted k now w).1
    go w [] p = ((stable _ [] (keeps w (k ∷ w.held) p.0.0), ap (λ h. k ∷ h) p.0.1), λ e. refl)
    go w (done ∷ now) p = (
      (stable _ now (keeps w (k ∷ w.held) p.0.0), ap (λ h. k ∷ h) p.0.1),
      λ e. let q = p.1 e in absurd cc,
    )
    go w (fails x ∷ now) p = ((stable w now p.0.0, p.0.1), λ e. let q = p.1 e in cc)
    go w (no_channel ∷ now) p = ((stable w now p.0.0, p.0.1), λ e. let q = p.1 e in cc)
