-- ===== src/Tasks/Prompt.antt =====
-- A round of the scheduler in which every call succeeds.
use rdpg_boshrelease.Base.{ℕ, suc, String, ◌≡◌, refl, sym, ◌∙◌, ap, subst, List, [], ◌∷◌, select}
use rdpg_boshrelease.World.{
  World, ScheduleRow, Db, Result, ok, err, panics, hangs, gets, sleep, exec_db, held-sleep,
  tasks-sleep, schedules-sleep,
}
use rdpg_boshrelease.World.Triple.{
  Post, Triple, Triple-known, Triple-pure, Triple-weaken, Triple-bind, Triple-attempt, Triple-gets,
  Triple-logged,
}
use rdpg_boshrelease.World.Holding.{Holds, Triple-unlock}
use rdpg_boshrelease.World.Sure.{Sure, Triple-query-Sure, Triple-exec_db-Sure}
use rdpg_boshrelease.World.Calm.{Triple-lock-Calm}
use rdpg_boshrelease.Instances.{insert_task}
use rdpg_boshrelease.Tasks.Queue.{Task, row_of_task, enqueue, enqueue_again}
use rdpg_boshrelease.Tasks.Scheduler.{
  scheduler_key, is_due, touch_schedule, task_of_schedule, enqueue_touched, enqueue_each,
  enqueue_due, schedule_locked, schedule_round,
}

-- Each schedule is marked with the time, and a task is made from it then.
abbrev pub all_queued : ℕ → List ScheduleRow → Db → Db
all_queued t [] d = d
all_queued t (s ∷ rest) d =
    all_queued t rest (insert_task (row_of_task t (task_of_schedule s)) (touch_schedule t s.id d))

module _ (t : ℕ) (h : List String) where
  -- the database and the locks at the time `t`
  abbrev Clocked : Db → World → Type 0
  Clocked d w = Holds d h w × (w.now ≡ t)

  Triple-now-Sure :
      (d : Db)
      → Triple
          (Sure (Clocked d))
          (gets (λ w. w.now))
          (λ now w. Sure (Clocked d) w × (t ≡ now))
          (λ e w. ⊥)
  Triple-now-Sure d =
      Triple-weaken (λ w p. p) (λ now w p. (p.0, sym p.0.0.1 ∙ p.1)) (λ e w p. p)
        (Triple-gets {P = Sure (Clocked d)} {E = λ e w. ⊥} (λ w. w.now))

  Triple-statement-Sure :
      (d : Db) (f : Db → Db)
      → Triple (Sure (Clocked d)) (exec_db f) (λ u. Sure (Clocked (f d))) (λ e w. ⊥)
  Triple-statement-Sure d f =
      Triple-exec_db-Sure {P = Clocked d} (λ w rs p. p) {Q = Clocked (f d)} f
        (λ w p. ((ap f p.0.0, p.0.1), p.1))

  Triple-enqueue-Sure :
      (n : ℕ) (k : Task) (d : Db)
      → Triple
          (Sure (Clocked d))
          (enqueue (suc n) k)
          (λ u. Sure (Clocked (insert_task (row_of_task t k) d)))
          (λ e w. ⊥)
  unfolding enqueue
  Triple-enqueue-Sure n k d = Triple-bind (Triple-now-Sure d) λ now. Triple-known λ same.
      Triple-weaken (λ w p. p)
        (λ u w p. subst (λ x. Sure (Clocked (insert_task (row_of_task x k) d)) w) (sym same) p)
        (λ e w p. p)
        (Triple-bind
          (Triple-attempt {F = λ e w. ⊥}
            (Triple-statement-Sure d (insert_task (row_of_task now k))))
          (once now))
    where
      once :
          (now : ℕ) (r : Result (Unit {0}))
          → Triple
              (λ w.
                Post
                  (λ (u : Unit {0}). Sure (Clocked (insert_task (row_of_task now k) d)))
                  (λ e w. ⊥)
                  r
                  w)
              (enqueue_again (enqueue n k) r)
              (λ u. Sure (Clocked (insert_task (row_of_task now k) d)))
              (λ e w. ⊥)
      once now (ok u) = Triple-pure tt λ w p. p
      once now (err e) = record { at = λ w p. absurd p }
      once now panics = record { at = λ w p. absurd p }
      once now hangs = record { at = λ w p. absurd p }

  -- One schedule of which the UPDATE succeeds.
  Triple-touched-Sure :
      (n : ℕ) (s : ScheduleRow) (d : Db) (r : Result (Unit {0}))
      → Triple
          (λ w. Post (λ (u : Unit {0}). Sure (Clocked d)) (λ e w. ⊥) r w)
          (enqueue_touched (suc n) s r)
          (λ u. Sure (Clocked (insert_task (row_of_task t (task_of_schedule s)) d)))
          (λ e w. ⊥)
  Triple-touched-Sure n s d (ok u) =
      Triple-logged (λ e w p. absurd p) (Triple-enqueue-Sure n (task_of_schedule s) d)
  Triple-touched-Sure n s d (err e) = record { at = λ w p. absurd p }
  Triple-touched-Sure n s d panics = record { at = λ w p. absurd p }
  Triple-touched-Sure n s d hangs = record { at = λ w p. absurd p }

  Triple-each-Sure :
      (n : ℕ) (due : List ScheduleRow) (d : Db)
      → Triple
          (Sure (Clocked d))
          (enqueue_each (suc n) due)
          (λ u. Sure (Clocked (all_queued t due d)))
          (λ e w. ⊥)
  unfolding enqueue_each
  Triple-each-Sure n [] d = Triple-pure tt λ w p. p
  Triple-each-Sure n (s ∷ rest) d = Triple-bind (Triple-now-Sure d) λ now. Triple-known λ same.
      Triple-bind
        (Triple-attempt {F = λ e w. ⊥} (
          Triple-weaken (λ w p. p)
            (λ u w p. subst (λ x. Sure (Clocked (touch_schedule x s.id d)) w) (sym same) p)
            (λ e w p. p) (Triple-statement-Sure d (touch_schedule now s.id))))
        λ r.
          Triple-bind (Triple-touched-Sure n s (touch_schedule t s.id d) r)
            λ u. Triple-each-Sure n rest _

module _ (t n : ℕ) (cluster role : String) (d : Db) where
  -- the database after the schedules that are due
  abbrev pub after_due : Db
  after_due = all_queued t (select (is_due role t) d.schedules) d

  -- Every schedule that was due has its task, and no lock is held.
  abbrev pub AllQueued : World → Type 0
  AllQueued w =
      (w.held ≡ []) × ((w.db.tasks ≡ after_due.tasks) × (w.db.schedules ≡ after_due.schedules))

  abbrev key : List String
  key = scheduler_key cluster ∷ []

  Triple-due-Sure :
      (found : Result (List ScheduleRow))
      → Triple
          (λ w.
            Post
              (λ due w. Sure (Clocked t key d) w × (select (is_due role t) d.schedules ≡ due))
              (λ e w. ⊥)
              found
              w)
          (enqueue_due (suc n) found)
          (λ u. Sure (Clocked t key after_due))
          (λ e w. ⊥)
  Triple-due-Sure (ok due) = Triple-known λ same.
      Triple-weaken (λ w p. p)
        (λ u w p. subst (λ x. Sure (Clocked t key (all_queued t x d)) w) (sym same) p) (λ e w p. p)
        (Triple-each-Sure t key n due d)
  Triple-due-Sure (err e) = record { at = λ w p. absurd p }
  Triple-due-Sure panics = record { at = λ w p. absurd p }
  Triple-due-Sure hangs = record { at = λ w p. absurd p }

  Triple-locked-Sure :
      (locked : Result (Unit {0}))
      → Triple
          (λ w. Post (λ (u : Unit {0}). Sure (Clocked t key d)) (λ e w. ⊥) locked w)
          (schedule_locked (suc n) cluster role locked)
          (λ u. AllQueued)
          (λ e w. ⊥)
  unfolding sleep
  Triple-locked-Sure (ok u) =
      Triple-bind
        (Triple-attempt {F = λ e w. ⊥} (
          Triple-weaken (λ w p. p)
            (λ due w p. (
              p.0,
              ap (λ x. select (is_due role x) d.schedules) (sym p.0.0.1)
                  ∙ ap (λ x. select (is_due role w.now) x.schedules) (sym p.0.0.0.0)
                  ∙ p.1,
            ))
            (λ e w p. p)
            (Triple-query-Sure {P = Clocked t key d} (λ w rs p. p)
              (λ w. select (is_due role w.now) w.db.schedules))))
        λ found. Triple-bind (Triple-due-Sure found) λ v.
          Triple-bind
            (Triple-logged (λ e w p. p)
              (Triple-weaken (λ w p. p.0.0) (λ u w p. p) (λ e w p. p)
                (Triple-unlock after_due [] (scheduler_key cluster) refl)))
            λ x. record {
              at = λ w p. (
                held-sleep w 10 ∙ p.1,
                (
                  tasks-sleep w 10 ∙ ap (λ y. y.tasks) p.0,
                  schedules-sleep w 10 ∙ ap (λ y. y.schedules) p.0,
                ),
              );
            }
  Triple-locked-Sure (err e) = record { at = λ w p. absurd p }
  Triple-locked-Sure panics = record { at = λ w p. absurd p }
  Triple-locked-Sure hangs = record { at = λ w p. absurd p }

  -- If every call of a round of the scheduler succeeds, which starts with no lock at the time `t`
  -- and with some fuel, each schedule that is enabled, of its role and past its time at `t` is
  -- marked with `t` and has one new task, made from it then, in the order of the table. No other
  -- schedule is marked and no other task is made, and no lock is held.
  pub schedule_round-AllQueued :
      Triple
        (Sure (Clocked t [] d))
        (schedule_round (suc n) cluster role)
        (λ u. AllQueued)
        (λ e w. ⊥)
  unfolding schedule_round
  schedule_round-AllQueued =
      Triple-bind
        (Triple-attempt {F = λ e w. ⊥} (
          Triple-weaken (λ w p. (((p.0.0.0, p.0.1), p.0.0.1), λ e. p.1))
            (λ u w p. (((p.0.0.0, p.0.1), p.0.0.1), p.1 refl)) (λ e w p. absurd (p.1 refl))
            (Triple-lock-Calm [] {P = λ w. (w.db ≡ d) × (w.now ≡ t)} (scheduler_key cluster)
              (λ w rs p. p) (λ w h p. p))))
        Triple-locked-Sure
