-- ===== src/Web/Answers.antt =====
-- Answers of the HTTP handlers.
use rdpg_boshrelease.Base.{ℕ, String}
use rdpg_boshrelease.World.{
  Error, Result, ok, err, panics, hangs, Exec, pure, panic, hang, attempt, ◌>>=◌,
}
use rdpg_boshrelease.Pg.{text}

-- `answered status description` is an answer with a text; `served a` is one with status 200 and
-- the value, as JSON.
pub data Response (A : Type 0) : Type 0 where
  answered : ℕ → String → Response A
  served : A → Response A

abbrev pub status : {A : Type 0} → Response A → ℕ
status (answered code text) = code
status (served a) = 200

-- The body of a request, read as JSON; or the error of reading it.
pub data Body (A : Type 0) : Type 0 where
  decoded : A → Body A
  undecoded : String → Body A

abbrev pub failed : {A : Type 0} → Error → Response A
failed e = answered 500 (text e)

module _ {A B : Type 0} where
  abbrev pub answer_result :
      (Error → Response B) → (A → Exec (Response B)) → Result A → Exec (Response B)
  answer_result on_error k (ok a) = k a
  answer_result on_error k (err e) = pure (on_error e)
  answer_result on_error k panics = panic
  answer_result on_error k hangs = hang

  -- A call whose error is answered, and what follows it otherwise.
  abbrev pub responding :
      Exec A → (Error → Response B) → (A → Exec (Response B)) → Exec (Response B)
  responding m on_error k = do r ← attempt m; answer_result on_error k r
