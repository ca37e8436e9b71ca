-- ===== src/Tasks/Scheduler.antt =====
-- tasks/scheduler.go: `SchedulerLock`, `SchedulerUnlock` and a round of the scheduler's loop.
use rdpg_boshrelease.Base.{
  ℕ, ◌+◌, String, ◌<>◌, Bool, ◌&&◌, ◌||◌, ◌==◌, List, [], ◌∷◌, eqb, leb, select, set_where,
}
use rdpg_boshrelease.World.{
  ScheduleRow, Db, Result, ok, err, panics, hangs, Action, pure, panic, hang, gets, attempt, logged,
  query, exec_db, sleep, lock, unlock, ◌>>=◌, ◌>>◌,
}
use rdpg_boshrelease.Tasks.Queue.{Task, new_task_for_any_node, enqueue}

unfoldable pub scheduler_key : String → String
scheduler_key cluster = "rdpg/" <> cluster <> "/tasks/scheduler/lock"

-- the WHERE clause of the scheduler's query
abbrev pub is_due : String → ℕ → ScheduleRow → Bool
is_due role now s =
    s.enabled
    && (leb (s.last_scheduled_at + s.frequency) now && (s.role == "all" || s.role == role))

-- UPDATE tasks.schedules SET last_scheduled_at = CURRENT_TIMESTAMP WHERE id
unfoldable pub touch_schedule : ℕ → ℕ → Db → Db
touch_schedule now id d = record d {
  schedules = set_where (λ s. eqb s.id id) (λ s. record s { last_scheduled_at = now }) d.schedules;
}

abbrev pub task_of_schedule : ScheduleRow → Task
task_of_schedule s = record new_task_for_any_node {
  cluster_id = s.cluster_id;
  role = s.role;
  action = s.action;
  task_data = s.task_data;
  ttl = s.ttl;
  node_type = s.node_type;
}

-- The task of a schedule, which is not enqueued if the UPDATE fails.
abbrev pub enqueue_touched : ℕ → ScheduleRow → Result (Unit {0}) → Action
enqueue_touched fuel s (ok u) = logged (enqueue fuel (task_of_schedule s))
enqueue_touched fuel s (err e) = pure tt
enqueue_touched fuel s panics = panic
enqueue_touched fuel s hangs = hang

unfoldable pub enqueue_each : ℕ → List ScheduleRow → Action
enqueue_each fuel [] = pure tt
enqueue_each fuel (s ∷ rest) = do
  now ← gets (λ w. w.now)
  r ← attempt (exec_db (touch_schedule now s.id))
  enqueue_touched fuel s r
  enqueue_each fuel rest

abbrev pub enqueue_due : ℕ → Result (List ScheduleRow) → Action
enqueue_due fuel (ok due) = enqueue_each fuel due
enqueue_due fuel (err e) = pure tt
enqueue_due fuel panics = panic
enqueue_due fuel hangs = hang

abbrev pub schedule_locked : ℕ → String → String → Result (Unit {0}) → Action
schedule_locked fuel cluster role (ok u) = do
  due ← attempt (query (λ w. select (is_due role w.now) w.db.schedules))
  enqueue_due fuel due
  logged (unlock (scheduler_key cluster))
  sleep 10
schedule_locked fuel cluster role (err e) = sleep 10
schedule_locked fuel cluster role panics = panic
schedule_locked fuel cluster role hangs = hang

-- one round of the loop of `Scheduler(role)`
unfoldable pub schedule_round : ℕ → String → String → Action
schedule_round fuel cluster role = do
  locked ← attempt (lock (scheduler_key cluster))
  schedule_locked fuel cluster role locked
