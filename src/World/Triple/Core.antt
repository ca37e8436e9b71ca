-- ===== src/World/Triple/Core.antt =====
-- Total correctness of functions over the world, one rule for each way to build a function.
use rdpg_boshrelease.Base.{
  ◌≡◌, refl, sym, ◌∙◌, ◌⊎◌, inl, inr, false≢true, Bool, true, false, List, if◌then◌else◌,
}
use rdpg_boshrelease.World.State.{Error, Reply, World}
use rdpg_boshrelease.World.Monad.{
  Result, ok, err, panics, hangs, Exec, pure, raise, attempt, caught, continue, ◌>>=◌,
}

-- `Q` of the value and the world if it returns, `E` of the error and the world if it returns an error; and it
-- neither panics nor hangs.
abbrev pub Post :
    {A : Type 0} → (A → World → Type 0) → (Error → World → Type 0) → Result A → World → Type 0
Post Q E (ok a) w = Q a w
Post Q E (err e) w = E e w
Post Q E panics w = ⊥
Post Q E hangs w = ⊥

pub record Triple {A : Type 0} (P : World → Type 0) (m : Exec A) (Q : A → World → Type 0)
    (E : Error → World → Type 0) : Type 0 where
  pub at : (w : World) → P w → Post Q E (m w).0 (m w).1

-- a predicate that does not speak of the replies
abbrev pub Stable : (World → Type 0) → Type 0
Stable P = (w : World) (rs : List Reply) → P w → P (record w { replies = rs })

module _ {A : Type 0} {P : World → Type 0} {Q : A → World → Type 0}
    {E : Error → World → Type 0} where
  pub Triple-pure : (a : A) → ((w : World) → P w → Q a w) → Triple P (pure a) Q E
  Triple-pure a h = record { at = h }

  pub Triple-raise : (e : Error) → ((w : World) → P w → E e w) → Triple P (raise e) Q E
  Triple-raise e h = record { at = h }

  pub Triple-if :
      (b : Bool) (m n : Exec A)
      → (b ≡ true → Triple P m Q E)
      → (b ≡ false → Triple P n Q E)
      → Triple P (if b then m else n) Q E
  Triple-if true m n hm hn = hm refl
  Triple-if false m n hm hn = hn refl

  -- a test of the world of which the outcome is known
  pub Triple-when :
      (m n : Exec A) (b : World → Bool)
      → ((w : World) → P w → b w ≡ true)
      → Triple P m Q E
      → Triple P (λ w. if b w then m w else n w) Q E
  Triple-when m n b h t = record { at = λ w p. go w (b w) (h w p) (t.at w p) }
    where
      go :
          (w : World) (c : Bool)
          → c ≡ true
          → Post Q E (m w).0 (m w).1
          → Post Q E (if c then m w else n w).0 (if c then m w else n w).1
      go w true e q = q
      go w false e q = absurd (false≢true e)

  pub Triple-unless :
      (m n : Exec A) (b : World → Bool)
      → ((w : World) → P w → b w ≡ false)
      → Triple P n Q E
      → Triple P (λ w. if b w then m w else n w) Q E
  Triple-unless m n b h t = record { at = λ w p. go w (b w) (h w p) (t.at w p) }
    where
      go :
          (w : World) (c : Bool)
          → c ≡ false
          → Post Q E (n w).0 (n w).1
          → Post Q E (if c then m w else n w).0 (if c then m w else n w).1
      go w true e q = absurd (false≢true (sym e))
      go w false e q = q

  -- What holds before may be used throughout.
  pub Triple-given : {m : Exec A} → ((w : World) → P w → Triple P m Q E) → Triple P m Q E
  Triple-given h = record { at = λ w p. (h w p).at w p }

  -- A fact that holds before, whatever the world.
  pub Triple-known :
      {Fact : Type 0} {m : Exec A} → (Fact → Triple P m Q E) → Triple (λ w. P w × Fact) m Q E
  Triple-known h = record { at = λ w p. (h p.1).at w p.0 }

  -- The world before may be named.
  pub Triple-at : {m : Exec A} → ((w : World) → P w → Triple (λ v. v ≡ w) m Q E) → Triple P m Q E
  Triple-at h = record { at = λ w p. (h w p).at w refl }

  -- A stronger condition before, and weaker ones after.
  pub Triple-weaken :
      {P' : World → Type 0} {Q' : A → World → Type 0} {E' : Error → World → Type 0} {m : Exec A}
      → ((w : World) → P w → P' w)
      → ((a : A) (w : World) → Q' a w → Q a w)
      → ((e : Error) (w : World) → E' e w → E e w)
      → Triple P' m Q' E'
      → Triple P m Q E
  Triple-weaken {Q'} {E'} {m} hp hq he t = record {
    at = λ w h. go (m w).0 (m w).1 (t.at w (hp w h));
  }
    where
      go : (r : Result A) (w : World) → Post Q' E' r w → Post Q E r w
      go (ok a) w h = hq a w h
      go (err e) w h = he e w h
      go panics w h = h
      go hangs w h = h

  -- `a, err := m()`
  pub Triple-attempt :
      {F : Error → World → Type 0} {m : Exec A}
      → Triple P m Q E
      → Triple P (attempt m) (λ r w. Post Q E r w) F
  Triple-attempt {F} {m} t = record { at = λ w h. go (m w).0 (m w).1 (t.at w h) }
    where
      go : (r : Result A) (w : World) → Post Q E r w → Post (λ r w. Post Q E r w) F (caught r) w
      go (ok a) w h = h
      go (err e) w h = h
      go panics w h = h
      go hangs w h = h

-- What holds before of some value.
pub Triple-exists :
    {A X : Type 0} {P : X → World → Type 0} {m : Exec A} {Q : A → World → Type 0}
    {E : Error → World → Type 0}
    → ((x : X) → Triple (P x) m Q E)
    → Triple (λ w. (x : X) × P x w) m Q E
Triple-exists t = record { at = λ w h. (t h.0).at w h.1 }

pub Triple-either :
    {A : Type 0} {P P' : World → Type 0} {m : Exec A} {Q : A → World → Type 0}
    {E : Error → World → Type 0}
    → Triple P m Q E
    → Triple P' m Q E
    → Triple (λ w. P w ⊎ P' w) m Q E
Triple-either t t' = record { at = λ w h. elim h [ inl p ↦ t.at w p | inr p ↦ t'.at w p ] }

-- Two things that hold of the same run.
pub Triple-and :
    {A : Type 0} {P P' : World → Type 0} {Q Q' : A → World → Type 0} {E E' : Error → World → Type 0}
    {m : Exec A}
    → Triple P m Q E
    → Triple P' m Q' E'
    → Triple (λ w. P w × P' w) m (λ a w. Q a w × Q' a w) (λ e w. E e w × E' e w)
Triple-and {Q} {Q'} {E} {E'} {m} t t' = record {
  at = λ w h. go (m w).0 (m w).1 (t.at w h.0) (t'.at w h.1);
}
  where
    go :
        (r : Result _) (w : World)
        → Post Q E r w
        → Post Q' E' r w
        → Post (λ a w. Q a w × Q' a w) (λ e w. E e w × E' e w) r w
    go (ok a) w h h' = (h, h')
    go (err e) w h h' = (h, h')
    go panics w h h' = h
    go hangs w h h' = h

-- A part of the world that a function leaves alone, whatever happens.
pub Triple-frame :
    {A C : Type 0} {P : World → Type 0} {Q : A → World → Type 0} {E : Error → World → Type 0}
    {m : Exec A} {c : C} (f : World → C)
    → ((w : World) → f (m w).1 ≡ f w)
    → Triple P m Q E
    → Triple (λ w. P w × (f w ≡ c)) m (λ a w. Q a w × (f w ≡ c)) (λ e w. E e w × (f w ≡ c))
Triple-frame {Q} {E} {m} {c} f same t = record {
  at = λ w h. go (m w).0 (m w).1 (t.at w h.0) (same w ∙ h.1);
}
  where
    go :
        (r : Result _) (w : World)
        → Post Q E r w
        → f w ≡ c
        → Post (λ a w. Q a w × (f w ≡ c)) (λ e w. E e w × (f w ≡ c)) r w
    go (ok a) w h k = (h, k)
    go (err e) w h k = (h, k)
    go panics w h k = h
    go hangs w h k = h

module _ {A B : Type 0} {P : World → Type 0} {R : A → World → Type 0} {Q : B → World → Type 0}
    {E : Error → World → Type 0} where
  pub Triple-bind :
      {m : Exec A} {f : A → Exec B}
      → Triple P m R E
      → ((a : A) → Triple (R a) (f a) Q E)
      → Triple P (m >>= f) Q E
  Triple-bind {m} {f} tm tf = record { at = λ w h. go (m w).0 (m w).1 (tm.at w h) }
    where
      go :
          (r : Result A) (w : World) → Post R E r w → Post Q E (continue r f w).0 (continue r f w).1
      go (ok a) w h = (tf a).at w h
      go (err e) w h = h
      go panics w h = h
      go hangs w h = h

  -- the same, where `m` says something else of the world after an error
  pub Triple-step :
      {F : Error → World → Type 0} {m : Exec A} {f : A → Exec B}
      → Triple P m R F
      → ((e : Error) (w : World) → F e w → E e w)
      → ((a : A) → Triple (R a) (f a) Q E)
      → Triple P (m >>= f) Q E
  Triple-step tm h tf = Triple-bind (Triple-weaken (λ w p. p) (λ a w p. p) h tm) tf
