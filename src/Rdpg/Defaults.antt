-- ===== src/Rdpg/Defaults.antt =====
-- The schedules that a new cluster starts with name tasks that the workers handle.
use rdpg_boshrelease.Base.{
  ℕ, zero, suc, ◌≡◌, refl, String, true, ◌==◌, List, [], ◌∷◌, ◌++◌, All, arith,
}
use rdpg_boshrelease.World.{
  World, ScheduleRow, Result, ok, err, panics, hangs, pure, attempt, exec_db, sleep, ◌>>◌,
}
use rdpg_boshrelease.World.Triple.{
  Post, Triple, Triple-raise, Triple-pure, Triple-if, Triple-weaken, Triple-step, Triple-bind,
  Triple-attempt, Triple-gets, Triple-logged, Triple-exec_db,
}
use rdpg_boshrelease.World.Measure.{Few, Triple-call_measured}
use rdpg_boshrelease.Tasks.{has_handler}
use rdpg_boshrelease.Rdpg.Schedules.{
  add_schedule, insert_default, insert_both, vacuum_schedule, history_schedule, available_schedule,
  all_schedule, backups_schedule, precreate_schedule, decommission_schedule, is_uninitialized,
  sequence_again, sequence_wait, role_schedules, insert_default_schedules,
}

-- Every schedule is of a task that a worker has a handler for.
abbrev pub Handled : World → Type 0
Handled w = All (λ (s : ScheduleRow). has_handler s.action ≡ true) w.db.schedules

All-snoc :
    (xs : List ScheduleRow) (x : ScheduleRow)
    → All (λ (s : ScheduleRow). has_handler s.action ≡ true) xs
    → has_handler x.action ≡ true
    → All (λ (s : ScheduleRow). has_handler s.action ≡ true) (xs ++ (x ∷ []))
All-snoc [] x h hx = (hx, tt)
All-snoc (y ∷ ys) x (hy, h) hx = (hy, All-snoc ys x h hx)

-- a row of such a task
abbrev IsHandled : (ℕ → ℕ → ScheduleRow) → Type 0
IsHandled row = (now id : ℕ) → has_handler (row now id).action ≡ true

Triple-insert_default :
    (row : ℕ → ℕ → ScheduleRow)
    → IsHandled row
    → Triple Handled (insert_default row) (λ u. Handled) (λ e. Handled)
Triple-insert_default row h =
    Triple-bind
      (Triple-weaken (λ w p. p) (λ a w p. p.0) (λ e w p. p)
        (Triple-gets {P = Handled} {E = λ e. Handled} (λ w. w.now)))
      λ now.
        Triple-weaken (λ w p. p) (λ u w p. p) (λ e w p. p.1)
          (Triple-exec_db {P = Handled} (λ w rs p. p) {Q = Handled} (add_schedule (row now))
            (λ w p. All-snoc w.db.schedules _ p (h now w.db.next_id)))

Triple-insert_both :
    (row row' : ℕ → ℕ → ScheduleRow)
    → IsHandled row
    → IsHandled row'
    → Triple Handled (insert_both row row') (λ u. Handled) (λ e. Handled)
Triple-insert_both row row' h h' =
    Triple-bind
      (Triple-weaken (λ w p. p) (λ a w p. p.0) (λ e w p. p)
        (Triple-gets {P = Handled} {E = λ e. Handled} (λ w. w.now)))
      λ now.
        Triple-weaken (λ w p. p) (λ u w p. p) (λ e w p. p.1)
          (Triple-exec_db {P = Handled} (λ w rs p. p) {Q = Handled} _
            (λ w p. All-snoc _ _ (All-snoc w.db.schedules _ p (h now _)) (h' now _)))

Triple-kept :
    (row : ℕ → ℕ → ScheduleRow)
    → IsHandled row
    → Triple Handled (do attempt (insert_default row); pure tt) (λ u. Handled) (λ e. Handled)
Triple-kept row h = Triple-logged {E = λ e. Handled} (λ e w p. p) (Triple-insert_default row h)

Triple-role_schedules :
    (cluster role : String)
    → Triple Handled (role_schedules cluster role) (λ u. Handled) (λ e. Handled)
Triple-role_schedules cluster role =
    Triple-if (role == "manager") _ _
      (λ manager. Triple-bind (Triple-kept (history_schedule cluster) (λ now id. refl)) λ u.
        Triple-insert_both (available_schedule cluster) (all_schedule cluster) (λ now id. refl)
          (λ now id. refl))
      (λ other.
        Triple-if (role == "service") _ _
          (λ service. Triple-bind (Triple-kept (history_schedule cluster) (λ now id. refl)) λ u.
            Triple-bind (Triple-kept (backups_schedule cluster) (λ now id. refl)) λ v.
              Triple-bind (Triple-kept (precreate_schedule cluster) (λ now id. refl))
                λ x. Triple-insert_default (decommission_schedule cluster) (λ now id. refl))
          (λ others. Triple-insert_default (history_schedule cluster) (λ now id. refl)))

-- An INSERT that fails has used up a reply.
Triple-first_insert :
    (cluster : String) (n : ℕ)
    → Triple
        (λ w. Handled w × Few (suc n) w)
        (insert_default (vacuum_schedule cluster))
        (λ u. Handled)
        (λ e w. Handled w × Few n w)
unfolding exec_db
Triple-first_insert cluster n =
    Triple-bind
      (Triple-weaken (λ w p. p) (λ a w p. p.0) (λ e w p. p)
        (Triple-gets {P = λ w. Handled w × Few (suc n) w} {E = λ e w. Handled w × Few n w}
          (λ w. w.now)))
      λ now.
        Triple-bind (Triple-call_measured {P = Handled} n (λ w rs p. p))
          λ u. record { at = λ w p. All-snoc w.db.schedules _ (p.0) refl }

Triple-sleep-Handled :
    (k n : ℕ) → Triple (λ w. Handled w × Few n w) (sleep k) (λ u w. Handled w × Few n w) (λ e w. ⊥)
unfolding sleep
Triple-sleep-Handled k n = record { at = λ w h. ground arith }

Triple-sequence_again :
    (cluster : String) (n : ℕ) (r : Result (Unit {0}))
    → Triple (λ w. Handled w × Few n w) (sequence_wait n cluster) (λ u. Handled) (λ e. Handled)
    → Triple
        (λ w. Post (λ (u : Unit {0}). Handled) (λ e w. Handled w × Few n w) r w)
        (sequence_again r (do sleep 1; sequence_wait n cluster))
        (λ u. Handled)
        (λ e. Handled)
Triple-sequence_again cluster n (ok u) t = Triple-pure tt λ w p. p
Triple-sequence_again cluster n (err e) t =
    Triple-if (is_uninitialized e) _ _
      (λ wait. Triple-step (Triple-sleep-Handled 1 n) (λ x w p. absurd p) λ u. t)
      (λ fails. Triple-raise e λ w p. p.0)
Triple-sequence_again cluster n panics t = record { at = λ w p. absurd p }
Triple-sequence_again cluster n hangs t = record { at = λ w p. absurd p }

Triple-sequence_wait :
    (cluster : String) (n : ℕ)
    → Triple (λ w. Handled w × Few n w) (sequence_wait n cluster) (λ u. Handled) (λ e. Handled)
unfolding sequence_wait
Triple-sequence_wait cluster zero = record { at = λ w p. absurd (omega (arith, p.1)) }
Triple-sequence_wait cluster (suc n) =
    Triple-bind (Triple-attempt {F = λ e. Handled} (Triple-first_insert cluster n))
      λ r. Triple-sequence_again cluster n r (Triple-sequence_wait cluster n)

-- The insertion of the default schedules ends when its fuel exceeds the replies that are left,
-- however often the sequence is not initialized yet. Whatever fails, and for every role, each
-- schedule is then of a task that the workers have a handler for, if that was so before.
pub insert_default_schedules-Handled :
    (cluster role : String) (n : ℕ)
    → Triple
        (λ w. Handled w × Few n w)
        (insert_default_schedules n cluster role)
        (λ u. Handled)
        (λ e. Handled)
unfolding insert_default_schedules
insert_default_schedules-Handled cluster role n =
    Triple-bind (Triple-sequence_wait cluster n) λ u. Triple-role_schedules cluster role
