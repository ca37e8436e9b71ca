-- ===== src/Tasks/Leaked.antt =====
-- The lock of the workers when its holder has gone on without it.
use rdpg_boshrelease.Base.{
  ℕ, ◌≡◌, refl, sym, ◌∙◌, ap, false, Bool-cases, some, inl, inr, false≢true,
}
use mathlib.Core.Option.{some-injective}
use rdpg_boshrelease.World.{Db}
use rdpg_boshrelease.Tasks.Work.{Worker}
use rdpg_boshrelease.Tasks.Crowd.{
  Phase, Shared, Move, takes_lock, finds_none, chooses, dequeues, dequeue_fails, unlocks, deletes,
  completes, delete_fails, reset_fails, System, Step, moves, enqueued, AllBelow, Reach, Becomes,
  remains, steps, is_critical,
}
use rdpg_boshrelease.Tasks.Exclusive.{set_phase-cases}
use rdpg_boshrelease.Tasks.Sharing.{Reach-OneEach}

-- The worker `i` holds the lock for ever, and nobody is between the lock and the unlock.
pub record Leaked (i : ℕ) (sh : Shared) (f : ℕ → Phase) : Type 0 where
  pub owned : sh.owner ≡ some i
  pub none_critical : (j : ℕ) → is_critical (f j) ≡ false

-- A move from outside the critical section, with the lock taken, stays outside and keeps the owner.
Move-outside :
    {k : Worker} {i j : ℕ} {sh sh' : Shared} {q p : Phase}
    → Move k j sh q sh' p
    → sh.owner ≡ some i
    → is_critical q ≡ false
    → (is_critical p ≡ false) × (sh'.owner ≡ some i)
Move-outside takes_lock o c = absurd cc
Move-outside finds_none o c = absurd (false≢true (sym c))
Move-outside (chooses nt r e) o c = absurd (false≢true (sym c))
Move-outside (dequeues now) o c = absurd (false≢true (sym c))
Move-outside dequeue_fails o c = absurd (false≢true (sym c))
Move-outside unlocks o c = absurd (false≢true (sym c))
Move-outside deletes o c = (refl, o)
Move-outside completes o c = (refl, o)
Move-outside delete_fails o c = (refl, o)
Move-outside reset_fails o c = (refl, o)

Step-Leaked :
    (workers : ℕ → Worker) (i : ℕ) (s t : System)
    → Step workers s t
    → Leaked i s.shared s.phase
    → Leaked i t.shared t.phase
Step-Leaked workers i s t (moves j {sh} {p} m) v =
    let out = Move-outside m v.owned (v.none_critical j) in
    record {
      owned = out.1;
      none_critical = λ l. elim (set_phase-cases s.phase j p l) [
        | inl e ↦ ap is_critical e.1 ∙ out.0
        | inr e ↦ ap is_critical e.1 ∙ v.none_critical l
      ];
    }
Step-Leaked workers i s t (enqueued r) v = record {
  owned = v.owned;
  none_critical = v.none_critical;
}

Becomes-Leaked :
    (workers : ℕ → Worker) (i : ℕ) (s t : System)
    → Leaked i s.shared s.phase
    → Becomes workers s t
    → Leaked i t.shared t.phase
Becomes-Leaked workers i s t v remains = v
Becomes-Leaked workers i s u v (steps {t} b st) =
    Step-Leaked workers i t u st (Becomes-Leaked workers i s t v b)

-- Once a worker is outside the critical section and still holds the lock, as after a `Dequeue` that
-- failed, no worker of the cluster is ever in that section again, in any order of the moves and
-- whatever is enqueued: no task is chosen any more. The state is one that the workers reach from an
-- idle start with a free lock, with the ids of the tasks below the next of the sequence.
pub Becomes-starved :
    (workers : ℕ → Worker) (d : Db) (s t : System) (i j : ℕ)
    → AllBelow d
    → Reach workers d s
    → s.shared.owner ≡ some i
    → is_critical (s.phase i) ≡ false
    → Becomes workers s t
    → is_critical (t.phase j) ≡ false
Becomes-starved workers d s t i j h r held out b =
    let v = Reach-OneEach workers d s h r in
    (Becomes-Leaked workers i s t
        (record {
          owned = held;
          none_critical = λ l. elim (Bool-cases (is_critical (s.phase l))) [
            | inl c ↦
                ap (λ k. is_critical (s.phase k))
                  (some-injective l i (sym ((v.fine l).owned c) ∙ held))
                ∙ out
            | inr c ↦ c
          ];
        })
        b).none_critical
      j
