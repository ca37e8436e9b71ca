-- ===== src/Tasks/Moving.antt =====
-- Each move of a worker keeps the invariant of the workers.
use rdpg_boshrelease.Base.{
  ℕ, ◌<◌, ◌≡◌, ◌≢◌, refl, sym, ◌∙◌, ap, subst, String, true, false, Option, none, some, eqb, select,
  false≢true,
}
use mathlib.Core.Option.{some-injective}
use rdpg_boshrelease.World.{TaskRow, Db}
use rdpg_boshrelease.Tasks.Queue.{lock_task}
use rdpg_boshrelease.Tasks.Work.{Worker, eligible, newest, delete_task, reset_task}
use rdpg_boshrelease.Tasks.Crowd.{
  Phase, idle, selecting, dequeuing, unlocking, working, Shared, Move, takes_lock, finds_none,
  chooses, dequeues, dequeue_fails, unlocks, deletes, completes, delete_fails, reset_fails,
  set_phase, AllBelow, is_critical, task_of,
}
use rdpg_boshrelease.Tasks.Locked.{
  Locked, Locked-lock_task, Locked-kept_by_lock, Locked-delete_task, Locked-reset_task, newest-any,
  newest-All,
}
use rdpg_boshrelease.Tasks.Below.{All-set_where, All-delete_where}
use rdpg_boshrelease.Tasks.Exclusive.{held, OneEach, held-task_of, OneEach-moved, OneEach-goes_on}

-- A task that a worker holds is not what a query yields.
module _ {sh : Shared} {f : ℕ → Phase} (v : OneEach sh f) (i : ℕ) where
  chosen-free :
      (k : Worker) (node_type : String) (r : TaskRow)
      → newest (select (eligible k node_type) sh.db.tasks) ≡ some r
      → is_critical (f i) ≡ true
      → (j : ℕ) → i ≢ j
      → task_of (f j) ≢ some r.id
  chosen-free k nt r e crit j ne h = go (f j) refl h
    where
      owner_is : is_critical (f j) ≡ true → i ≡ j
      owner_is c = some-injective i j (sym ((v.fine i).owned crit) ∙ (v.fine j).owned c)

      not_held : held (f j) ≢ some r.id
      not_held g = false≢true (sym ((v.fine j).taken r.id g) ∙ newest-any k nt sh.db.tasks r e)

      go : (p : Phase) → f j ≡ p → task_of p ≢ some r.id
      go idle q g = cc
      go selecting q g = cc
      go (dequeuing s) q g = ne (owner_is (ap is_critical q))
      go (unlocking s) q g = not_held (ap held q ∙ g)
      go (working s) q g = not_held (ap held q ∙ g)

-- The worker `i`, that has been in the phase `q`, moves.
module _ (d : Db) (o : Option ℕ) (f : ℕ → Phase) (i : ℕ) (q : Phase)
    (v : OneEach (record { db = d; owner = o }) f) (at : q ≡ f i) where
  -- It gives up its task, and changes the table in a way that leaves the others their locks.
  OneEach-leaves :
      (d' : Db)
      → ((j id : ℕ) → i ≢ j → held (f j) ≡ some id → Locked id d → Locked id d')
      → d.next_id ≡ d'.next_id
      → AllBelow d'
      → OneEach (record { db = d'; owner = o }) (set_phase f i idle)
  OneEach-leaves d' keep same known =
      OneEach-goes_on d d' o o f i q idle v at (λ h. absurd (false≢true h)) (λ j ne c h. h)
        (λ id h. cc) keep same (λ id h. cc) known

  -- It frees the lock, if it is in the critical section and leaves it.
  OneEach-frees :
      (p : Phase)
      → is_critical q ≡ true
      → is_critical p ≡ false
      → ((id : ℕ) → held p ≡ some id → held q ≡ some id)
      → ((id : ℕ) → task_of p ≡ some id → task_of q ≡ some id)
      → OneEach (record { db = d; owner = none }) (set_phase f i p)
  OneEach-frees p crit out holds has =
      OneEach-goes_on d d o none f i q p v at (λ h. absurd (false≢true (sym out ∙ h)))
        (λ j ne c h.
          absurd
            (ne (some-injective i j (sym ((v.fine i).owned (ap is_critical (sym at) ∙ crit)) ∙ h))))
        (λ id h. (v.fine i).taken id (ap held (sym at) ∙ holds id h)) (λ j id ne h l. l) refl has
        v.below

  -- The task of another has another id.
  apart_from :
      (r : TaskRow) (j id : ℕ) → task_of q ≡ some r.id → i ≢ j → held (f j) ≡ some id → id ≢ r.id
  apart_from r j id has ne h same =
      ne (v.apart i j r.id (ap task_of (sym at) ∙ has) (held-task_of (f j) id h ∙ ap some same))

-- It chooses a task.
OneEach-chooses :
    (k : Worker) (d : Db) (o : Option ℕ) (f : ℕ → Phase) (i : ℕ) (nt : String) (r : TaskRow)
    → newest (select (eligible k nt) d.tasks) ≡ some r
    → selecting ≡ f i
    → OneEach (record { db = d; owner = o }) f
    → OneEach (record { db = d; owner = o }) (set_phase f i (dequeuing r))
OneEach-chooses k d o f i nt r chosen e v =
    OneEach-moved (record { db = d; owner = o }) (record { db = d; owner = o }) f i (dequeuing r) v
      (record {
        owned = λ h. (v.fine i).owned (ap is_critical (sym e));
        taken = λ id h. cc;
        known = λ id h.
            subst (λ n. n < d.next_id) (some-injective r.id id h)
              (newest-All (λ s. s.id < d.next_id) (eligible k nt) d.tasks r v.below chosen);
      })
      (λ j ne. v.fine j)
      (λ j id ne h h'. chosen-free v i k nt r chosen (ap is_critical (sym e)) j ne (h' ∙ sym h))
      v.below

-- It locks its task.
OneEach-dequeues :
    (k : Worker) (d : Db) (o : Option ℕ) (f : ℕ → Phase) (i now : ℕ) (r : TaskRow)
    → dequeuing r ≡ f i
    → OneEach (record { db = d; owner = o }) f
    → OneEach
        (record { db = lock_task k.my_ip now r.id d; owner = o })
        (set_phase f i (unlocking r))
unfolding lock_task
OneEach-dequeues k d o f i now r e v =
    OneEach-goes_on d (lock_task k.my_ip now r.id d) o o f i (dequeuing r) (unlocking r) v e
      (λ h. (v.fine i).owned (ap is_critical (sym e))) (λ j ne c h. h)
      (λ id h.
        subst (λ n. Locked n (lock_task k.my_ip now r.id d)) (some-injective r.id id h)
          (Locked-lock_task k.my_ip now r.id d))
      (λ j id ne h l. Locked-kept_by_lock k.my_ip now id r.id d l) refl (λ id h. h)
      (All-set_where (λ s. s.id < d.next_id) (λ s. eqb s.id r.id)
        (λ s. record s { locked_by = some k.my_ip; processing_at = some now }) d.tasks (λ s h. h)
        v.below)

-- It deletes its task.
OneEach-deletes :
    (d : Db) (o : Option ℕ) (f : ℕ → Phase) (i : ℕ) (r : TaskRow)
    → working r ≡ f i
    → OneEach (record { db = d; owner = o }) f
    → OneEach (record { db = delete_task r.id d; owner = o }) (set_phase f i (working r))
unfolding delete_task
OneEach-deletes d o f i r e v =
    OneEach-goes_on d (delete_task r.id d) o o f i (working r) (working r) v e
      (λ h. absurd (false≢true h)) (λ j ne c h. h)
      (λ id h. Locked-delete_task id r.id d ((v.fine i).taken id (ap held (sym e) ∙ h)))
      (λ j id ne h l. Locked-delete_task id r.id d l) refl (λ id h. h)
      (All-delete_where (λ s. s.id < d.next_id) (λ s. eqb s.id r.id) d.tasks v.below)

pub Move-OneEach :
    {k : Worker} {i : ℕ} {sh sh' : Shared} {q p : Phase}
    → Move k i sh q sh' p
    → (f : ℕ → Phase) → q ≡ f i
    → OneEach sh f
    → OneEach sh' (set_phase f i p)
unfolding delete_task reset_task
Move-OneEach {i = i} (takes_lock {d}) f e v =
    OneEach-goes_on d d none (some i) f i idle selecting v e (λ h. refl) (λ j ne c h. cc)
      (λ id h. cc) (λ j id ne h l. l) refl (λ id h. h) v.below
Move-OneEach {i = i} (finds_none {d} {o}) f e v =
    OneEach-frees d o f i selecting v e idle refl refl (λ id h. h) (λ id h. h)
Move-OneEach {k = k} {i = i} (chooses {d} {o} nt r chosen) f e v =
    OneEach-chooses k d o f i nt r chosen e v
Move-OneEach {k = k} {i = i} (dequeues {d} {o} {r} now) f e v = OneEach-dequeues k d o f i now r e v
Move-OneEach {i = i} (dequeue_fails {d} {o} {r}) f e v =
    OneEach-leaves d o f i (dequeuing r) v e d (λ j id ne h l. l) refl v.below
Move-OneEach {i = i} (unlocks {d} {o} {r}) f e v =
    OneEach-frees d o f i (unlocking r) v e (working r) refl refl (λ id h. h) (λ id h. h)
Move-OneEach {i = i} (deletes {d} {o} {r}) f e v = OneEach-deletes d o f i r e v
Move-OneEach {i = i} (completes {d} {o} {r}) f e v =
    OneEach-leaves d o f i (working r) v e (delete_task r.id d)
      (λ j id ne h l. Locked-delete_task id r.id d l) refl
      (All-delete_where (λ s. s.id < d.next_id) (λ s. eqb s.id r.id) d.tasks v.below)
Move-OneEach {i = i} (delete_fails {d} {o} {r}) f e v =
    OneEach-leaves d o f i (working r) v e (reset_task r.id d)
      (λ j id ne h l.
        Locked-reset_task id r.id d (apart_from d o f i (working r) v e r j id refl ne h) l)
      refl
      (All-set_where (λ s. s.id < d.next_id) (λ s. eqb s.id r.id)
        (λ s. record s { locked_by = none; processing_at = none }) d.tasks (λ s h. h) v.below)
Move-OneEach {i = i} (reset_fails {d} {o} {r}) f e v =
    OneEach-leaves d o f i (working r) v e d (λ j id ne h l. l) refl v.below
