-- ===== src/Tasks/Marking.antt =====
-- What the scheduler does with the schedules that it has found, one after the other.
use rdpg_boshrelease.Base.{
  ℕ, zero, suc, String, ◌≡◌, subst, Bool, true, false, if◌then◌else◌, refl, sym, ◌∙◌, List, [], ◌∷◌,
  arith, ◌⊎◌, inl, inr,
}
use rdpg_boshrelease.World.{
  World, ScheduleRow, Db, Result, ok, err, panics, hangs, ◌>>◌, Action, raise,
}
use rdpg_boshrelease.World.Triple.{
  Post, Triple, Triple-pure, Triple-weaken, Triple-bind, Triple-attempt, Triple-gets, Triple-known,
  Triple-frame, Triple-exists, Triple-either, Triple-logged,
}
use rdpg_boshrelease.World.Holding.{Holds}
use rdpg_boshrelease.World.Steady.{
  Steady, Steady-pure, Steady-raise, Steady-gets, Steady-bind, Steady-attempt, Steady-exec_db,
}
use rdpg_boshrelease.World.Measure.{Few, Triple-statement_measured}
use rdpg_boshrelease.Instances.{insert_task}
use rdpg_boshrelease.Tasks.Queue.{Task, is_taken_key, enqueue, enqueue_again, row_of_task}
use rdpg_boshrelease.Tasks.Queueing.{Refused, Triple-enqueue}
use rdpg_boshrelease.Tasks.Scheduler.{
  touch_schedule, task_of_schedule, enqueue_touched, enqueue_each,
}

-- What may become of the schedules of a list, one after the other: the UPDATE fails; the schedule
-- is marked with the time `t` but its task is not enqueued; it is marked, and there is one task more.
pub data Scheduled (t : ℕ) : List ScheduleRow → Db → Db → Type 0 where
  finished : (d : Db) → Scheduled t [] d d
  skipped :
      (s : ScheduleRow) (rest : List ScheduleRow) (d e : Db)
      → Scheduled t rest d e
      → Scheduled t (s ∷ rest) d e
  marked :
      (s : ScheduleRow) (rest : List ScheduleRow) (d e : Db)
      → Scheduled t rest (touch_schedule t s.id d) e
      → Scheduled t (s ∷ rest) d e
  queued :
      (s : ScheduleRow) (rest : List ScheduleRow) (at_time : ℕ) (d e : Db)
      → Scheduled t rest
          (insert_task (row_of_task at_time (task_of_schedule s)) (touch_schedule t s.id d))
          e
      → Scheduled t (s ∷ rest) d e

Steady-enqueue_again :
    (again : Action) (r : Result (Unit {0})) → Steady again → Steady (enqueue_again again r)
Steady-enqueue_again again (ok u) h = Steady-pure tt
Steady-enqueue_again again (err e) h = retried (is_taken_key e)
  where
    retried : (b : Bool) → Steady (if b then again else raise e)
    retried true = h
    retried false = Steady-raise e
Steady-enqueue_again again panics h = record { kept = λ w. refl }
Steady-enqueue_again again hangs h = record { kept = λ w. refl }

pub Steady-enqueue : (n : ℕ) (t : Task) → Steady (enqueue n t)
unfolding enqueue
Steady-enqueue zero t = record { kept = λ w. refl }
Steady-enqueue (suc n) t = record {
  kept = λ w.
      (Steady-bind (Steady-gets (λ v. v.now)) λ now.
          Steady-bind (Steady-attempt (Steady-exec_db (insert_task (row_of_task now t))))
            λ r. Steady-enqueue_again _ r (Steady-enqueue n t)).kept
        w;
}

module _ (t : ℕ) (h : List String) (n : ℕ) where
  -- the database, the locks and the replies, at the time `t`
  abbrev pub At : Db → World → Type 0
  At d w = (Holds d h w × Few n w) × (w.now ≡ t)

  abbrev pub Over : List ScheduleRow → Db → World → Type 0
  Over due d w = (e : Db) × (Scheduled t due d e × Holds e h w)

  -- One schedule, and what follows it.
  Triple-touched :
      (d : Db) (s : ScheduleRow) (rest : List ScheduleRow)
      → ((d : Db) → Triple (At d) (enqueue_each n rest) (λ u. Over rest d) (λ e w. ⊥))
      → (r : Result (Unit {0}))
      → Triple
          (λ w. Post (λ (u : Unit {0}). At (touch_schedule t s.id d)) (λ e. At d) r w)
          (do enqueue_touched n s r; enqueue_each n rest)
          (λ u. Over (s ∷ rest) d)
          (λ e w. ⊥)
  Triple-touched d s rest next (ok u) =
      Triple-bind
        {R = λ u w.
          ((at_time : ℕ) × At
              (insert_task (row_of_task at_time (task_of_schedule s)) (touch_schedule t s.id d)) w)
          ⊎ At (touch_schedule t s.id d) w}
        (Triple-logged
          {E = λ e w.
            (Refused (task_of_schedule s) (touch_schedule t s.id d) h e w × Few n w) × (w.now ≡ t)}
          (λ e w p. inr ((p.0.0.0, p.0.1), p.1))
          (Triple-weaken (λ w p. p) (λ v w p. inl (p.0.0.0, ((p.0.0.1, p.0.1), p.1))) (λ e w p. p)
            (Triple-frame (λ w. w.now) (Steady-enqueue n (task_of_schedule s)).kept
              (Triple-enqueue (task_of_schedule s) (touch_schedule t s.id d) h n))))
        λ v.
          Triple-either
            (Triple-exists λ at_time.
              Triple-weaken (λ w p. p) (λ u w p. (p.0, (queued s rest at_time d p.0 p.1.0, p.1.1)))
                (λ e w p. p) (next _))
            (Triple-weaken (λ w p. p) (λ u w p. (p.0, (marked s rest d p.0 p.1.0, p.1.1)))
              (λ e w p. p) (next _))
  Triple-touched d s rest next (err e) = Triple-bind {R = λ u. At d} (Triple-pure tt λ w p. p) λ v.
      Triple-weaken (λ w p. p) (λ u w p. (p.0, (skipped s rest d p.0 p.1.0, p.1.1))) (λ e w p. p)
        (next d)
  Triple-touched d s rest next panics = record { at = λ w p. absurd p }
  Triple-touched d s rest next hangs = record { at = λ w p. absurd p }

pub Triple-enqueue_each :
    (t : ℕ) (h : List String) (n : ℕ) (due : List ScheduleRow) (d : Db)
    → Triple (At t h n d) (enqueue_each n due) (λ u. Over t h n due d) (λ e w. ⊥)
unfolding enqueue_each
Triple-enqueue_each t h n [] d = Triple-pure tt λ w p. (d, (finished d, p.0.0))
Triple-enqueue_each t h zero (s ∷ rest) d = record { at = λ w p. absurd (omega (arith, p.0.1)) }
Triple-enqueue_each t h (suc n) (s ∷ rest) d =
    Triple-bind
      (Triple-weaken (λ w p. p) (λ a w p. (p.0, sym p.1 ∙ p.0.1)) (λ e w p. p)
        (Triple-gets {P = At t h (suc n) d} {E = λ e w. ⊥} (λ w. w.now)))
      λ now. Triple-known λ same.
        Triple-bind
          (Triple-attempt {F = λ e w. ⊥} (
            Triple-weaken (λ w p. p)
              (λ u w p. ((subst (λ x. Holds (touch_schedule x s.id d) h w) same p.0.0, p.0.1), p.1))
              (λ e w p. ((p.0.0, omega (arith, p.0.1)), p.1))
              (Triple-frame (λ w. w.now) (Steady-exec_db (touch_schedule now s.id)).kept
                (Triple-statement_measured d h (touch_schedule now s.id) n))))
          (Triple-touched t h (suc n) d s rest (Triple-enqueue_each t h (suc n) rest))
