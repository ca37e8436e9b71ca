-- ===== src/World/Triple/Steps.antt =====
-- The rules for the calls that leave the process, on what does not speak of the replies.
use rdpg_boshrelease.Base.{◌≡◌, refl, Option, none, some, List, [], ◌∷◌, subst}
use rdpg_boshrelease.World.State.{Error, no_rows, IsMessage, Reply, done, fails, no_channel, World}
use rdpg_boshrelease.World.Rows.{Db}
use rdpg_boshrelease.World.Monad.{Result, ok, err, panics, hangs, Action, gets, logged}
use rdpg_boshrelease.World.Calls.{call, answer, query, get_row, got, exec_db}
use rdpg_boshrelease.World.Triple.Core.{
  Post, Triple, Stable, Triple-bind, Triple-step, Triple-attempt,
}

module _ {P : World → Type 0} (stable : Stable P) where
  pub Triple-call : Triple P call (λ u. P) (λ e w. IsMessage e × P w)
  unfolding call
  Triple-call = record { at = λ w h. go w w.replies h }
    where
      go :
          (w : World) (rs : List Reply)
          → P w
          → Post (λ (u : Unit {0}). P) (λ e w. IsMessage e × P w) (answer rs w).0 (answer rs w).1
      go w [] h = stable w [] h
      go w (done ∷ rs) h = stable w rs h
      go w (fails e ∷ rs) h = (tt, stable w rs h)
      go w (no_channel ∷ rs) h = stable w rs h

  pub Triple-query :
      {A : Type 0} (f : World → A)
      → Triple P (query f) (λ a w. P w × (f w ≡ a)) (λ e w. IsMessage e × P w)
  unfolding query
  Triple-query f = Triple-bind Triple-call λ u. record { at = λ w h. (h, refl) }

  -- `sql.ErrNoRows` comes from an empty result alone.
  pub Triple-get_row :
      {A : Type 0} (f : World → Option A)
      → Triple P
          (get_row f)
          (λ a w. P w × (f w ≡ some a))
          (λ e w. P w × ((e ≡ no_rows) → f w ≡ none))
  unfolding get_row
  Triple-get_row {A} f =
      Triple-step (Triple-query f) (λ e w h. (h.1, λ q. absurd (subst IsMessage q h.0)))
        λ row. record { at = λ w h. go row w h }
    where
      go :
          (row : Option A) (w : World)
          → P w × (f w ≡ row)
          → Post
              (λ a w. P w × (f w ≡ some a))
              (λ e w. P w × ((e ≡ no_rows) → f w ≡ none))
              (got row w).0
              (got row w).1
      go none w h = (h.0, λ q. h.1)
      go (some a) w h = h

  -- a statement on the rdpg database
  pub Triple-exec_db :
      {Q : World → Type 0} (f : Db → Db)
      → ((w : World) → P w → Q (record w { db = f w.db }))
      → Triple P (exec_db f) (λ u. Q) (λ e w. IsMessage e × P w)
  unfolding exec_db
  Triple-exec_db f h = Triple-bind Triple-call λ u. record { at = h }

pub Triple-gets :
    {A : Type 0} {P : World → Type 0} {E : Error → World → Type 0} (f : World → A)
    → Triple P (gets f) (λ a w. P w × (f w ≡ a)) E
Triple-gets f = record { at = λ w h. (h, refl) }

-- a call whose error is only logged
pub Triple-logged :
    {P Q : World → Type 0} {E F : Error → World → Type 0} {m : Action}
    → ((e : Error) (w : World) → E e w → Q w)
    → Triple P m (λ u. Q) E
    → Triple P (logged m) (λ u. Q) F
Triple-logged {Q} {E} {m} h t = Triple-bind (Triple-attempt t) λ r. record { at = go r }
  where
    go : (r : Result (Unit {0})) (w : World) → Post (λ (u : Unit {0}). Q) E r w → Q w
    go (ok a) w p = p
    go (err e) w p = h e w p
    go panics w p = absurd p
    go hangs w p = absurd p
