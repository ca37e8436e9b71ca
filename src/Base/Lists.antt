-- ===== src/Base/Lists.antt =====
-- Lists as tables: SELECT, UPDATE and DELETE with a WHERE clause, and their laws.
use Prim.Native.Nat.{ℕ, suc}
use Prim.Native.String.{String}
use mathlib.Core.Path.{◌≡◌, refl}
use mathlib.Core.Bool.{Bool, true, false, ◌||◌}
use mathlib.Core.Option.{Option, none, some}
use mathlib.Core.List.{List, [], ◌∷◌, ◌++◌}
use native.Mathlib.Omega.{arith}
use rdpg_boshrelease.Base.Tests.{◌==◌, if◌then◌else◌}

module _ {ℓ} {A : Type ℓ} where
  abbrev pub length : List A → ℕ
  length [] = 0
  length (x ∷ xs) = suc (length xs)

  -- SELECT ... WHERE p
  abbrev pub select : (A → Bool) → List A → List A
  select p [] = []
  select p (x ∷ xs) = let rest = select p xs in if p x then x ∷ rest else rest

  -- SELECT ... WHERE p LIMIT 1
  abbrev pub first : (A → Bool) → List A → Option A
  first p [] = none
  first p (x ∷ xs) = if p x then some x else first p xs

  -- UPDATE ... SET f WHERE p
  abbrev pub set_where : (A → Bool) → (A → A) → List A → List A
  set_where p f [] = []
  set_where p f (x ∷ xs) = (if p x then f x else x) ∷ set_where p f xs

  -- DELETE ... WHERE p
  abbrev pub delete_where : (A → Bool) → List A → List A
  delete_where p [] = []
  delete_where p (x ∷ xs) = let rest = delete_where p xs in if p x then rest else x ∷ rest

  abbrev pub any : (A → Bool) → List A → Bool
  any p [] = false
  any p (x ∷ xs) = p x || any p xs

  abbrev pub All {κ} : (A → Type κ) → List A → Type κ
  All P [] = Unit
  All P (x ∷ xs) = P x × All P xs

  pub first_satisfies : (p : A → Bool) (xs : List A) (x : A) → first p xs ≡ some x → p x ≡ true
  first_satisfies p (y ∷ ys) x h = ground (arith, first_satisfies p ys x)
  first_satisfies p [] x h = ground arith

  pub any_of_first : (p : A → Bool) (xs : List A) (x : A) → first p xs ≡ some x → any p xs ≡ true
  any_of_first p (y ∷ ys) x h = ground (arith, any_of_first p ys x)
  any_of_first p [] x h = ground arith

  pub first-none : (p : A → Bool) (xs : List A) → first p xs ≡ none → any p xs ≡ false
  first-none p [] h = refl
  first-none p (x ∷ xs) h = ground (arith, first-none p xs)

  pub any-append : (p : A → Bool) (xs ys : List A) → any p (xs ++ ys) ≡ (any p xs || any p ys)
  any-append p [] ys = refl
  any-append p (x ∷ xs) ys = ground (arith, any-append p xs ys)

-- membership in a list of names
abbrev pub member : String → List String → Bool
member k = any (λ j. k == j)
