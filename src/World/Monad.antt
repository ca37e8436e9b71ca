-- ===== src/World/Monad.antt =====
-- Go functions over the world: they return, return an error, panic, or wait for ever. What was
-- written before an error stays written.
use rdpg_boshrelease.Base.{Option, none, some}
use rdpg_boshrelease.World.State.{Error, World}

pub data Result {ℓ} (A : Type ℓ) : Type ℓ where
  ok : A → Result A
  err : Error → Result A
  panics : Result A
  hangs : Result A

abbrev pub Exec : Type 0 → Type 0
Exec A = World → Result A × World

abbrev pub Action : Type 0
Action = Exec (Unit {0})

module _ {A : Type 0} where
  abbrev pub pure : A → Exec A
  pure a w = (ok a, w)

  abbrev pub raise : Error → Exec A
  raise e w = (err e, w)

  abbrev pub panic : Exec A
  panic w = (panics, w)

  abbrev pub hang : Exec A
  hang w = (hangs, w)

  abbrev pub gets : (World → A) → Exec A
  gets f w = (ok (f w), w)

  abbrev pub caught : Result A → Result (Result A)
  caught (ok a) = ok (ok a)
  caught (err e) = ok (err e)
  caught panics = panics
  caught hangs = hangs

  -- `a, err := m()` with no return on the error
  abbrev pub attempt : Exec A → Exec (Result A)
  attempt m w = let (r, w') = m w in (caught r, w')

abbrev pub modify : (World → World) → Action
modify f w = (ok tt, f w)

module _ {A B : Type 0} where
  abbrev pub continue : Result A → (A → Exec B) → Exec B
  continue (ok a) f w = f a w
  continue (err e) f w = (err e, w)
  continue panics f w = (panics, w)
  continue hangs f w = (hangs, w)

  infixl 5 ◌>>=◌ ◌>>◌
  abbrev pub ◌>>=◌ : Exec A → (A → Exec B) → Exec B
  ◌>>=◌ m f w = let (r, w') = m w in continue r f w'

  abbrev pub ◌>>◌ : Exec A → Exec B → Exec B
  m >> n = m >>= λ _. n

-- The error of a call whose value is not used: `_, err = ...`.
abbrev pub error_of : {A : Type 0} → Result A → Option Error
error_of (ok a) = none
error_of (err e) = some e
error_of panics = none
error_of hangs = none

-- `return err`
abbrev pub return_error : Option Error → Action
return_error none = pure tt
return_error (some e) = raise e

-- a call whose error is only logged
abbrev pub logged : Action → Action
logged m = do attempt m; pure tt
