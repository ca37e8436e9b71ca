-- ===== src/World/Sure.antt =====
-- Runs in which every call succeeds.
use rdpg_boshrelease.Base.{◌≡◌, refl, List, [], ◌∷◌}
use rdpg_boshrelease.World.State.{World, Reply}
use rdpg_boshrelease.World.Rows.{Db}
use rdpg_boshrelease.World.Calls.{call, answer, exec_db, query}
use rdpg_boshrelease.World.Triple.{Post, Triple, Stable, Triple-bind}

-- No call that is to come fails.
abbrev pub Sure : (World → Type 0) → World → Type 0
Sure P w = P w × (w.replies ≡ [])

module _ {P : World → Type 0} (stable : Stable P) where
  pub Triple-call-Sure : Triple (Sure P) call (λ u. Sure P) (λ e w. ⊥)
  unfolding call
  Triple-call-Sure = record { at = λ w p. go w w.replies p.1 p.0 }
    where
      go :
          (w : World) (rs : List Reply)
          → rs ≡ []
          → P w
          → Post (λ (u : Unit {0}). Sure P) (λ e w. ⊥) (answer rs w).0 (answer rs w).1
      go w [] e p = (stable w [] p, refl)
      go w (r ∷ rs) e p = absurd cc

  pub Triple-query-Sure :
      {A : Type 0} (f : World → A)
      → Triple (Sure P) (query f) (λ a w. Sure P w × (f w ≡ a)) (λ e w. ⊥)
  unfolding query
  Triple-query-Sure f = Triple-bind Triple-call-Sure λ u. record { at = λ w p. (p, refl) }

  pub Triple-exec_db-Sure :
      {Q : World → Type 0} (f : Db → Db)
      → ((w : World) → P w → Q (record w { db = f w.db }))
      → Triple (Sure P) (exec_db f) (λ u. Sure Q) (λ e w. ⊥)
  unfolding exec_db
  Triple-exec_db-Sure f h = Triple-bind Triple-call-Sure λ u. record { at = λ w p. (h w p.0, p.1) }
