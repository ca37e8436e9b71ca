-- ===== src/Tasks/Crowd.antt =====
-- tasks/work.go: the loops of the workers of a cluster, interleaved in any order, with the Consul
-- lock and the queue that they share. Each move is one call of a worker's round.
use rdpg_boshrelease.Base.{
  ℕ, ◌<◌, ◌≡◌, Bool, true, false, String, Option, none, some, eqb, select, All, ◌&&◌, ◌||◌,
  if◌then◌else◌,
}
use rdpg_boshrelease.World.{TaskRow, Db}
use rdpg_boshrelease.Instances.{insert_task}
use rdpg_boshrelease.Tasks.Queue.{lock_task}
use rdpg_boshrelease.Tasks.Work.{Worker, eligible, newest, delete_task, reset_task}

-- where a worker is in its round: before the lock, before the query, before `Dequeue`, before
-- `WorkUnlock`, and before `task.Work()`
pub data Phase : Type 0 where
  idle : Phase
  selecting : Phase
  dequeuing : TaskRow → Phase
  unlocking : TaskRow → Phase
  working : TaskRow → Phase

-- the database, and the worker that holds the lock
pub record Shared : Type 0 where
  pub db : Db
  pub owner : Option ℕ

-- The worker `i`, with its role and address. A query that fails or yields nothing is followed by an
-- unlock, which frees the lock even when its call fails. A `Dequeue` that fails leaves the lock with
-- a worker that goes on without it. `task.Work()` deletes the task, and the worker deletes it again,
-- or resets it where this has failed; the reset may fail too.
pub data Move (k : Worker) (i : ℕ) : Shared → Phase → Shared → Phase → Type 0 where
  takes_lock :
      {d : Db}
      → Move k i
          (record { db = d; owner = none })
          idle
          (record { db = d; owner = some i })
          selecting
  finds_none :
      {d : Db} {o : Option ℕ}
      → Move k i (record { db = d; owner = o }) selecting (record { db = d; owner = none }) idle
  chooses :
      {d : Db} {o : Option ℕ} (node_type : String) (r : TaskRow)
      → newest (select (eligible k node_type) d.tasks) ≡ some r
      → Move k i
          (record { db = d; owner = o })
          selecting
          (record { db = d; owner = o })
          (dequeuing r)
  dequeues :
      {d : Db} {o : Option ℕ} {r : TaskRow} (now : ℕ)
      → Move k i
          (record { db = d; owner = o })
          (dequeuing r)
          (record { db = lock_task k.my_ip now r.id d; owner = o })
          (unlocking r)
  dequeue_fails :
      {d : Db} {o : Option ℕ} {r : TaskRow}
      → Move k i (record { db = d; owner = o }) (dequeuing r) (record { db = d; owner = o }) idle
  unlocks :
      {d : Db} {o : Option ℕ} {r : TaskRow}
      → Move k i
          (record { db = d; owner = o })
          (unlocking r)
          (record { db = d; owner = none })
          (working r)
  deletes :
      {d : Db} {o : Option ℕ} {r : TaskRow}
      → Move k i
          (record { db = d; owner = o })
          (working r)
          (record { db = delete_task r.id d; owner = o })
          (working r)
  completes :
      {d : Db} {o : Option ℕ} {r : TaskRow}
      → Move k i
          (record { db = d; owner = o })
          (working r)
          (record { db = delete_task r.id d; owner = o })
          idle
  delete_fails :
      {d : Db} {o : Option ℕ} {r : TaskRow}
      → Move k i
          (record { db = d; owner = o })
          (working r)
          (record { db = reset_task r.id d; owner = o })
          idle
  reset_fails :
      {d : Db} {o : Option ℕ} {r : TaskRow}
      → Move k i (record { db = d; owner = o }) (working r) (record { db = d; owner = o }) idle

-- moves of one worker, one after the other
pub data Moves (k : Worker) (i : ℕ) : Shared → Phase → Shared → Phase → Type 0 where
  stays : {sh : Shared} {p : Phase} → Moves k i sh p sh p
  goes : {a b c : Shared} {p q r : Phase} → Move k i a p b q → Moves k i b q c r → Moves k i a p c r

pub record System : Type 0 where
  pub shared : Shared
  pub phase : ℕ → Phase

abbrev pub set_phase : (ℕ → Phase) → ℕ → Phase → ℕ → Phase
set_phase f i p j = if eqb j i then p else f j

-- A move of some worker, or a new task in the queue.
pub data Step (workers : ℕ → Worker) (s : System) : System → Type 0 where
  moves :
      (i : ℕ) {sh : Shared} {p : Phase}
      → Move (workers i) i s.shared (s.phase i) sh p
      → Step workers s (record { shared = sh; phase = set_phase s.phase i p })
  enqueued :
      (t : TaskRow)
      → Step workers s (record {
        shared = record { db = insert_task t s.shared.db; owner = s.shared.owner };
        phase = s.phase;
      })

-- The ids of the tasks are below the next of the sequence.
abbrev pub AllBelow : Db → Type 0
AllBelow d = All (λ (r : TaskRow). r.id < d.next_id) d.tasks

abbrev pub initial : Db → System
initial d = record { shared = record { db = d; owner = none }; phase = λ i. idle }

pub data Reach (workers : ℕ → Worker) (d : Db) : System → Type 0 where
  starts : Reach workers d (initial d)
  later : {s t : System} → Reach workers d s → Step workers s t → Reach workers d t

-- the systems that `s` becomes
pub data Becomes (workers : ℕ → Worker) (s : System) : System → Type 0 where
  remains : Becomes workers s s
  steps : {t u : System} → Becomes workers s t → Step workers t u → Becomes workers s u

-- The worker is between its lock and its unlock.
abbrev pub is_critical : Phase → Bool
is_critical idle = false
is_critical selecting = true
is_critical (dequeuing r) = true
is_critical (unlocking r) = true
is_critical (working r) = false

-- the id of the task that the worker's query has yielded
abbrev pub task_of : Phase → Option ℕ
task_of idle = none
task_of selecting = none
task_of (dequeuing r) = some r.id
task_of (unlocking r) = some r.id
task_of (working r) = some r.id

abbrev pub same_task : Option ℕ → Option ℕ → Bool
same_task none none = false
same_task none (some b) = false
same_task (some a) none = false
same_task (some a) (some b) = eqb a b

-- Two workers choose a task at the same time, or have the same task.
abbrev pub clash : Phase → Phase → Bool
clash p q = (is_critical p && is_critical q) || same_task (task_of p) (task_of q)
