-- ===== src/Tests/Workers.antt =====
-- Runs of the workers and the scheduler (package tasks).
use rdpg_boshrelease.Base.{ℕ, ◌≡◌, refl, arith, true, false, some, [], ◌∷◌}
use rdpg_boshrelease.World.{
  World, TaskRow, ScheduleRow, Db, ok, err, hangs, empty_db, empty_world, message, done, fails,
}
use rdpg_boshrelease.World.Triple.{Post}
use rdpg_boshrelease.Tasks.{
  Task, row_of_task, enqueue, lock_task, Worker, work_round, schedule_round, Pool,
  precreate_databases, remove_database, idle, selecting, dequeuing, unlocking, working, takes_lock,
  chooses, dequeues, unlocks, System, set_phase, moves, Reach, starts, later, clash, remains, steps,
  enqueued, dequeue_fails, is_critical,
}
use rdpg_boshrelease.Tasks.Queueing.{Enqueued, Refused, enqueue-Enqueued}
use rdpg_boshrelease.Tasks.Prompt.{AllQueued, schedule_round-AllQueued}
use rdpg_boshrelease.Instances.{insert_task}
use rdpg_boshrelease.Tasks.Leaked.{Becomes-starved}
use rdpg_boshrelease.Tasks.Sharing.{Reach-clash}
use rdpg_boshrelease.Tasks.Alone.{IsMoved, work_round-IsMoved}
use rdpg_boshrelease.Tasks.Twice.{queued, work_round-starts_twice}
use rdpg_boshrelease.Tasks.Faults.{
  until_dequeue, work_round-leaks_lock, precreate_databases-leaks_lock, remove_database-keeps_lock,
}

abbrev worker : Worker
worker = record { cluster_id = "rdpgsc1"; my_ip = "10.0.0.1"; work_role = "service" }

abbrev vacuum_task : Task
vacuum_task = record {
  id = 0;
  cluster_id = "rdpgsc1";
  node = "*";
  role = "all";
  action = "Vacuum";
  task_data = "rdpg";
  ttl = 3600;
  node_type = "any";
}

abbrev vacuum_row : TaskRow
vacuum_row = record (row_of_task 4 vacuum_task) { id = 1 }

abbrev odd_row : TaskRow
odd_row = record vacuum_row { action = "Reboot" }

abbrev hourly : ScheduleRow
hourly = record {
  id = 2;
  cluster_id = "rdpgsc1";
  role = "all";
  action = "Vacuum";
  task_data = "rdpg";
  frequency = 3600;
  ttl = 3600;
  node_type = "any";
  enabled = true;
  last_scheduled_at = 0;
}

abbrev loaded : Db
loaded = record empty_db { tasks = vacuum_row ∷ []; schedules = hourly ∷ []; next_id = 3 }

abbrev running : World
running = record empty_world { db = loaded; now = 7200 }

abbrev hasty : ℕ → Worker
hasty i = worker

abbrev locked_by_one : Db
locked_by_one = lock_task "10.0.0.1" 7200 1 loaded

-- The first worker has a task, and the second has the lock.
abbrev crowded : System
crowded = record {
  shared = record { db = locked_by_one; owner = some 1 };
  phase =
      set_phase
        (set_phase
          (set_phase (set_phase (set_phase (λ i. idle) 0 selecting) 0 (dequeuing vacuum_row)) 0
            (unlocking vacuum_row))
          0 (working vacuum_row))
        1 selecting;
}

crowded-Reach : Reach hasty loaded crowded
crowded-Reach =
    later
      (later
        (later
          (later (later starts (moves 0 takes_lock)) (moves 0 (chooses "read" vacuum_row refl)))
          (moves 0 (dequeues 7200)))
        (moves 0 unlocks))
      (moves 1 takes_lock)

Reach-clash_example : clash (crowded.phase 0) (crowded.phase 1) ≡ false
Reach-clash_example =
    Reach-clash hasty loaded crowded 0 1 (omega arith, tt) crowded-Reach (omega arith)

-- The first worker's `Dequeue` has failed.
abbrev stuck : System
stuck = record {
  shared = record { db = loaded; owner = some 0 };
  phase = set_phase (set_phase (set_phase (λ i. idle) 0 selecting) 0 (dequeuing vacuum_row)) 0 idle;
}

stuck-Reach : Reach hasty loaded stuck
stuck-Reach =
    later (later (later starts (moves 0 takes_lock)) (moves 0 (chooses "read" vacuum_row refl)))
      (moves 0 dequeue_fails)

abbrev stuck_later : System
stuck_later = record {
  shared = record { db = insert_task vacuum_row loaded; owner = some 0 };
  phase = stuck.phase;
}

Becomes-starved_example : is_critical (stuck_later.phase 1) ≡ false
Becomes-starved_example =
    Becomes-starved hasty loaded stuck stuck_later 0 1 (omega arith, tt) stuck-Reach refl refl
      (steps remains (enqueued vacuum_row))

work_round-IsMoved_example :
    Post
      (λ (u : Unit {0}). IsMoved worker 0 loaded)
      (λ e w. ⊥)
      (work_round worker running).0
      (work_round worker running).1
work_round-IsMoved_example = (work_round-IsMoved worker 0 loaded []).at running ((refl, refl), refl)

schedule_round-AllQueued_example :
    Post
      (λ (u : Unit {0}). AllQueued 7200 0 "rdpgsc1" "service" loaded)
      (λ e w. ⊥)
      (schedule_round 1 "rdpgsc1" "service" running).0
      (schedule_round 1 "rdpgsc1" "service" running).1
schedule_round-AllQueued_example =
    (schedule_round-AllQueued 7200 0 "rdpgsc1" "service" loaded).at running
      (((refl, refl), refl), refl)

enqueue-Enqueued_example :
    Post
      (λ (u : Unit {0}). Enqueued vacuum_task loaded [])
      (Refused vacuum_task loaded [])
      (enqueue 1 vacuum_task running).0
      (enqueue 1 vacuum_task running).1
enqueue-Enqueued_example =
    (enqueue-Enqueued vacuum_task loaded [] 1).at running ((refl, refl), omega arith)

abbrev refused : World
refused = record running { held = []; replies = until_dequeue "disk full" }

work_round-leaks_lock_example :
    ((work_round worker refused).0 ≡ ok tt)
    × ((work_round worker (work_round worker refused).1).0 ≡ hangs)
work_round-leaks_lock_example =
    work_round-leaks_lock worker running "disk full" vacuum_row refl refl refl

work_round-starts_twice_example :
    (work_round worker (work_round worker (queued running vacuum_row "timeout")).1).1.started
    ≡ (("Vacuum", vacuum_row) ∷ ("Vacuum", vacuum_row) ∷ [])
work_round-starts_twice_example =
    work_round-starts_twice worker running "timeout" vacuum_row refl refl refl

abbrev pool : Pool
pool = record { cluster_id = "rdpgsc1"; work_role = "service"; pool_size = 10; pg_port = "7432" }

abbrev unreachable : World
unreachable = record running { held = []; replies = done ∷ done ∷ fails "connection refused" ∷ [] }

precreate_databases-leaks_lock_example :
    ((precreate_databases 1 pool (λ n. ("a", "b")) "" unreachable).0
      ≡ err (message "connection refused"))
    × ((precreate_databases 1 pool
          (λ n. ("a", "b"))
          ""
          (precreate_databases 1 pool (λ n. ("a", "b")) "" unreachable).1).0
        ≡ hangs)
precreate_databases-leaks_lock_example =
    precreate_databases-leaks_lock 1 pool (λ n. ("a", "b")) "" "connection refused" running refl

remove_database-keeps_lock_example :
    ((remove_database "rdpgsc1" "7432" running).0 ≡ ok tt)
    × ((remove_database "rdpgsc1" "7432" (remove_database "rdpgsc1" "7432" running).1).0 ≡ hangs)
remove_database-keeps_lock_example = remove_database-keeps_lock "rdpgsc1" "7432" running refl
