-- ===== src/World/Steady.antt =====
-- Functions that let no time pass.
use rdpg_boshrelease.Base.{
  String, ◌≡◌, refl, ◌∙◌, Bool, true, false, List, [], ◌∷◌, member, if◌then◌else◌,
}
use rdpg_boshrelease.World.State.{Error, World, Reply, done, fails, no_channel}
use rdpg_boshrelease.World.Rows.{Db}
use rdpg_boshrelease.World.Monad.{
  Result, ok, err, panics, hangs, Exec, Action, pure, raise, gets, modify, attempt, continue,
  logged, ◌>>=◌,
}
use rdpg_boshrelease.World.Calls.{call, answer, query, exec_db, lock, granted}

pub record Steady {A : Type 0} (m : Exec A) : Type 0 where
  pub kept : (w : World) → (m w).1.now ≡ w.now

pub Steady-pure : {A : Type 0} (a : A) → Steady (pure a)
Steady-pure a = record { kept = λ w. refl }

pub Steady-raise : {A : Type 0} (e : Error) → Steady (raise {A = A} e)
Steady-raise e = record { kept = λ w. refl }

pub Steady-gets : {A : Type 0} (f : World → A) → Steady (gets f)
Steady-gets f = record { kept = λ w. refl }

pub Steady-call : Steady call
unfolding call
Steady-call = record { kept = λ w. go w w.replies }
  where
    go : (w : World) (rs : List Reply) → (answer rs w).1.now ≡ w.now
    go w [] = refl
    go w (r ∷ rs) = refl

module _ {A B : Type 0} {m : Exec A} {f : A → Exec B} where
  pub Steady-bind : Steady m → ((a : A) → Steady (f a)) → Steady (m >>= f)
  Steady-bind hm hf = record { kept = λ w. go (m w).0 (m w).1 ∙ hm.kept w }
    where
      go : (r : Result A) (v : World) → (continue r f v).1.now ≡ v.now
      go (ok a) v = (hf a).kept v
      go (err e) v = refl
      go panics v = refl
      go hangs v = refl

pub Steady-attempt : {A : Type 0} {m : Exec A} → Steady m → Steady (attempt m)
Steady-attempt h = record { kept = λ w. h.kept w }

pub Steady-logged : {m : Action} → Steady m → Steady (logged m)
Steady-logged h = Steady-bind (Steady-attempt h) λ r. Steady-pure tt

pub Steady-modify : (f : World → World) → ((w : World) → (f w).now ≡ w.now) → Steady (modify f)
Steady-modify f h = record { kept = h }

pub Steady-exec_db : (f : Db → Db) → Steady (exec_db f)
unfolding exec_db
Steady-exec_db f = Steady-bind Steady-call λ u. Steady-modify _ λ w. refl

pub Steady-query : {A : Type 0} (f : World → A) → Steady (query f)
unfolding query
Steady-query f = Steady-bind Steady-call λ u. Steady-gets f

pub Steady-lock : (key : String) → Steady (lock key)
unfolding lock
Steady-lock key = Steady-bind Steady-call λ u. record { kept = λ w. tried w (member key w.held) }
  where
    got_it : (w : World) (rs : List Reply) → (granted key rs w).1.now ≡ w.now
    got_it w [] = refl
    got_it w (done ∷ rs) = refl
    got_it w (fails s ∷ rs) = refl
    got_it w (no_channel ∷ rs) = refl

    tried :
        (w : World) (b : Bool) → (if b then (hangs, w) else granted key w.replies w).1.now ≡ w.now
    tried w true = refl
    tried w false = got_it w w.replies
