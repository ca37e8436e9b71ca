-- ===== src/Tasks/Scheduling.antt =====
-- What a round of the scheduler does to the queue.
use rdpg_boshrelease.Base.{ℕ, String, ◌≡◌, List, [], ◌∷◌, select, ◌⊎◌}
use rdpg_boshrelease.World.{World, ScheduleRow, Db, ◌>>◌}
use rdpg_boshrelease.World.Triple.{Triple}
use rdpg_boshrelease.World.Holding.{Holds}
use rdpg_boshrelease.Tasks.Scheduler.{scheduler_key, is_due}
use rdpg_boshrelease.Tasks.Marking.{Scheduled}

module _ (t n : ℕ) (cluster role : String) (d : Db) where
  -- The schedules that were due have been scheduled, or none if the lock or the query failed.
  abbrev pub SchedulesRun : World → Type 0
  SchedulesRun w =
      (due : List ScheduleRow) × (e : Db) × (((due ≡ [])
          ⊎ (due ≡ select (is_due role t) d.schedules))
        × Scheduled t due d e
        × (w.held ≡ [])
        × (w.db.tasks ≡ e.tasks)
        × (w.db.schedules ≡ e.schedules))

  abbrev key : List String
  key = scheduler_key cluster ∷ []

  -- before the sleep at the end of the round
  abbrev RunOver : World → Type 0
  RunOver w =
      (due : List ScheduleRow) × (e : Db) × (((due ≡ [])
          ⊎ (due ≡ select (is_due role t) d.schedules))
        × Scheduled t due d e
        × Holds e key w)
