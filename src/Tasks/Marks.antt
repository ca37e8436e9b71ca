-- ===== src/Tasks/Marks.antt =====
-- A schedule that is marked is not due before its time.
use rdpg_boshrelease.Base.{
  ℕ, ◌+◌, ◌<◌, String, ◌≡◌, refl, false, ◌&&◌, List, [], ◌∷◌, any, set_where, All, eqb, arith,
}
use rdpg_boshrelease.World.{ScheduleRow, Db}
use rdpg_boshrelease.Tasks.Scheduler.{is_due, touch_schedule}

-- After the mark of a schedule at one time, no round at a later time finds it due, whatever its
-- role, as long as less than the frequency of every schedule has passed.
pub touch_schedule-is_due :
    (role : String) (now later id : ℕ) (d : Db)
    → All (λ s. later < now + s.frequency) d.schedules
    → any (λ s. eqb s.id id && is_due role later s) (touch_schedule now id d).schedules ≡ false
unfolding touch_schedule
touch_schedule-is_due role now later id d early = go d.schedules early
  where
    go :
        (xs : List ScheduleRow)
        → All (λ s. later < now + s.frequency) xs
        → any
            (λ s. eqb s.id id && is_due role later s)
            (set_where (λ s. eqb s.id id) (λ s. record s { last_scheduled_at = now }) xs)
          ≡ false
    go [] early = refl
    go (x ∷ xs) early = ground (arith, go xs early.1, early.0)
