-- ===== src/Rdpg/Schedules.antt =====
-- `insertDefaultSchedules` of rdpg/schema.go.
use Prim.Native.String.{slice, len}
use package.text.Mathlib.Text.{find?}
use rdpg_boshrelease.Base.{
  ℕ, zero, suc, ◌+◌, String, ◌==◌, Bool, true, false, Option, none, some, [], ◌∷◌, ◌++◌, contains,
  if◌then◌else◌,
}
use rdpg_boshrelease.World.{
  ScheduleRow, Db, Error, Result, ok, err, panics, hangs, Action, pure, raise, panic, hang, gets,
  attempt, logged, exec_db, sleep, ◌>>=◌, ◌>>◌,
}
use rdpg_boshrelease.Pg.{text}

-- a row of tasks.schedules with the columns of the INSERTs of `insertDefaultSchedules`, and the
-- defaults of the others
abbrev pub schedule_row : String → String → String → String → ℕ → String → ℕ → ℕ → ScheduleRow
schedule_row cluster role action task_data frequency node_type now id = record {
  id = id;
  cluster_id = cluster;
  role = role;
  action = action;
  task_data = task_data;
  frequency = frequency;
  ttl = 3600;
  node_type = node_type;
  enabled = true;
  last_scheduled_at = now;
}

abbrev pub add_schedule : (ℕ → ScheduleRow) → Db → Db
add_schedule row d = record d {
  schedules = d.schedules ++ (row d.next_id ∷ []);
  next_id = d.next_id + 1;
}

-- An INSERT, with its default timestamp.
abbrev pub insert_default : (ℕ → ℕ → ScheduleRow) → Action
insert_default row = do now ← gets (λ w. w.now); exec_db (add_schedule (row now))

abbrev pub vacuum_schedule : String → ℕ → ℕ → ScheduleRow
vacuum_schedule cluster = schedule_row cluster "all" "Vacuum" "tasks.tasks" 300 "any"

abbrev pub history_schedule : String → ℕ → ℕ → ScheduleRow
history_schedule cluster = schedule_row cluster "all" "DeleteBackupHistory" "" 3600 "read"

abbrev pub available_schedule : String → ℕ → ℕ → ScheduleRow
available_schedule cluster =
    schedule_row cluster "manager" "ReconcileAvailableDatabases" "" 60 "read"

abbrev pub all_schedule : String → ℕ → ℕ → ScheduleRow
all_schedule cluster = schedule_row cluster "manager" "ReconcileAllDatabases" "" 300 "read"

abbrev pub backups_schedule : String → ℕ → ℕ → ScheduleRow
backups_schedule cluster = schedule_row cluster "service" "ScheduleNewDatabaseBackups" "" 60 "write"

abbrev pub precreate_schedule : String → ℕ → ℕ → ScheduleRow
precreate_schedule cluster = schedule_row cluster "service" "PrecreateDatabases" "" 60 "any"

abbrev pub decommission_schedule : String → ℕ → ℕ → ScheduleRow
decommission_schedule cluster = schedule_row cluster "service" "DecommissionDatabases" "" 900 "any"

-- `re.MatchString(err.Error())` with the expression `global sequence.*not initialized yet`: the
-- second text behind the first
abbrev pub contains_from : String → Option ℕ → String → Bool
contains_from s none t = false
contains_from s (some i) t = contains (slice s i (len s)) t

abbrev pub is_uninitialized : Error → Bool
is_uninitialized e = contains_from (text e) (find? (text e) "global sequence") "not initialized yet"

-- the loop over the first INSERT
abbrev pub sequence_again : Result (Unit {0}) → Action → Action
sequence_again (ok u) again = pure tt
sequence_again (err e) again = if is_uninitialized e then again else raise e
sequence_again panics again = panic
sequence_again hangs again = hang

unfoldable pub sequence_wait : ℕ → String → Action
sequence_wait zero cluster w = (hangs, w)
sequence_wait (suc fuel) cluster w =
    (do
      r ← attempt (insert_default (vacuum_schedule cluster))
      sequence_again r (do sleep 1; sequence_wait fuel cluster))
      w

-- both rows of one INSERT
abbrev pub insert_both : (ℕ → ℕ → ScheduleRow) → (ℕ → ℕ → ScheduleRow) → Action
insert_both row row' = do
  now ← gets (λ w. w.now)
  exec_db (λ d. add_schedule (row' now) (add_schedule (row now) d))

-- The INSERTs behind the first: the error is that of the last of them.
abbrev pub role_schedules : String → String → Action
role_schedules cluster role =
    if role == "manager"
    then (do
      logged (insert_default (history_schedule cluster))
      insert_both (available_schedule cluster) (all_schedule cluster))
    else if role == "service"
    then (do
      logged (insert_default (history_schedule cluster))
      logged (insert_default (backups_schedule cluster))
      logged (insert_default (precreate_schedule cluster))
      insert_default (decommission_schedule cluster))
    else insert_default (history_schedule cluster)

-- `insertDefaultSchedules(role, db)`
unfoldable pub insert_default_schedules : ℕ → String → String → Action
insert_default_schedules fuel cluster role = do
  sequence_wait fuel cluster
  role_schedules cluster role
