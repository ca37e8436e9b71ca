-- ===== src/Web/Answering.antt =====
-- The rule for a call whose error is answered.
use rdpg_boshrelease.World.{World, Error, Result, ok, err, panics, hangs, Exec}
use rdpg_boshrelease.World.Triple.{Post, Triple, Triple-bind, Triple-attempt}
use rdpg_boshrelease.Web.Answers.{Response, answer_result, responding}

pub Triple-responding :
    {A B : Type 0} {P : World → Type 0} {m : Exec A} {Q : A → World → Type 0}
    {E : Error → World → Type 0} {R : Response B → World → Type 0} {F : Error → World → Type 0}
    (on_error : Error → Response B) (k : A → Exec (Response B))
    → Triple P m Q E
    → ((e : Error) (w : World) → E e w → R (on_error e) w)
    → ((a : A) → Triple (Q a) (k a) R F)
    → Triple P (responding m on_error k) R F
Triple-responding {A} {Q} {E} {R} {F} on_error k t h tk = Triple-bind (Triple-attempt t) go
  where
    go : (r : Result A) → Triple (λ w. Post Q E r w) (answer_result on_error k r) R F
    go (ok a) = tk a
    go (err e) = record { at = h e }
    go panics = record { at = λ w p. absurd p }
    go hangs = record { at = λ w p. absurd p }
