-- ===== src/Tasks/Sharing.antt =====
-- The workers of a cluster share its queue: no two of them choose at once, or have the same task.
use rdpg_boshrelease.Base.{
  ℕ, ◌+◌, ◌≡◌, ◌≢◌, refl, sym, ◌∙◌, ap, Bool, true, false, Bool-cases, ◌&&◌, Option, none, some,
  inl, inr, eqb, arith,
}
use mathlib.Core.Option.{some-injective}
use rdpg_boshrelease.World.{TaskRow, Db}
use rdpg_boshrelease.Instances.{insert_task}
use rdpg_boshrelease.Tasks.Work.{Worker}
use rdpg_boshrelease.Tasks.Crowd.{
  Phase, System, moves, enqueued, AllBelow, Reach, starts, later, is_critical, task_of, same_task,
  clash,
}
use rdpg_boshrelease.Tasks.Locked.{any-snoc}
use rdpg_boshrelease.Tasks.Below.{All-enqueued}
use rdpg_boshrelease.Tasks.Exclusive.{OneEach, held-task_of}
use rdpg_boshrelease.Tasks.Moving.{Move-OneEach}

-- A new task has an id that no worker's task has.
OneEach-enqueued :
    (d : Db) (o : Option ℕ) (f : ℕ → Phase) (t : TaskRow)
    → OneEach (record { db = d; owner = o }) f
    → OneEach (record { db = insert_task t d; owner = o }) f
OneEach-enqueued d o f t v = record {
  fine = λ j. record {
    owned = (v.fine j).owned;
    taken = λ id h.
        any-snoc id d.tasks (record t { id = d.next_id })
          (ground (arith, (v.fine j).known id (held-task_of (f j) id h))) ((v.fine j).taken id h);
    known = λ id h. omega (arith, (v.fine j).known id h);
  };
  apart = v.apart;
  below =
      All-enqueued d.next_id (d.next_id + 1) d.tasks (record t { id = d.next_id }) (omega arith)
        (omega arith) v.below;
}

pub Reach-OneEach :
    (workers : ℕ → Worker) (d : Db) (s : System)
    → AllBelow d
    → Reach workers d s
    → OneEach s.shared s.phase
Reach-OneEach workers d s h starts = record {
  fine = λ j. record { owned = λ c. cc; taken = λ id c. cc; known = λ id c. cc };
  apart = λ i j id c. cc;
  below = h;
}
Reach-OneEach workers d t h (later {s} r (moves i m)) =
    Move-OneEach m s.phase refl (Reach-OneEach workers d s h r)
Reach-OneEach workers d t h (later {s} r (enqueued row)) =
    OneEach-enqueued s.shared.db s.shared.owner s.phase row (Reach-OneEach workers d s h r)

same_task-some : (a b : Option ℕ) → ((id : ℕ) → a ≡ some id → b ≢ some id) → same_task a b ≡ false
same_task-some none none h = refl
same_task-some none (some y) h = refl
same_task-some (some x) none h = refl
same_task-some (some x) (some y) h = elim (Bool-cases (eqb x y)) [
  | inl e ↦ absurd (h x refl (ap some (ground arith)))
  | inr e ↦ e
]

not_both : (a b : Bool) → (a ≡ true → b ≢ true) → (a && b) ≡ false
not_both false b h = refl
not_both true false h = refl
not_both true true h = absurd (h refl refl)

-- Whatever the order in which the workers and the writers of the queue move, and whichever of the
-- calls `Dequeue`, DELETE, reset and unlock fail, two workers are never both between the lock and
-- the unlock, and never have tasks with the same id. At first the workers are idle, nobody holds
-- the lock, and the ids of the tasks are below the next of the sequence.
pub Reach-clash :
    (workers : ℕ → Worker) (d : Db) (s : System) (i j : ℕ)
    → AllBelow d
    → Reach workers d s
    → i ≢ j
    → clash (s.phase i) (s.phase j) ≡ false
Reach-clash workers d s i j h r ne =
    let v = Reach-OneEach workers d s h r in
    rw
      (not_both (is_critical (s.phase i)) (is_critical (s.phase j))
        λ a b. ne (some-injective i j (sym ((v.fine i).owned a) ∙ (v.fine j).owned b)))
      (same_task-some (task_of (s.phase i)) (task_of (s.phase j)) λ id a b. ne (v.apart i j id a b))
