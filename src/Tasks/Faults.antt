-- ===== src/Tasks/Faults.antt =====
-- Failures that the worker does not handle.
use rdpg_boshrelease.Base.{
  ℕ, String, ◌<>◌, ◌≡◌, Bool, true, false, none, some, List, [], ◌∷◌, ◌==◌, arith, select, first,
  eqb, eq_refl,
}
use rdpg_boshrelease.World.{
  World, TaskRow, message, Reply, done, fails, ok, err, panics, hangs, call, db-call, exec_db,
  query, get_row, service, lock,
}
use rdpg_boshrelease.Tasks.Queue.{dequeue, row_of_task}
use rdpg_boshrelease.Tasks.Databases.{
  Pool, create_key, precreate_databases, is_removable, remove_key, remove_each, remove_database,
}
use rdpg_boshrelease.Tasks.Maintenance.{reconfigure_task, decommission_database}
use rdpg_boshrelease.Tasks.Work.{
  Worker, work_key, work_lock, is_write_node, node_type_of, eligible, newest, has_handler,
  delete_task, work_task, work_round,
}

-- The calls of a round up to the UPDATE of `Dequeue` succeed, and that fails.
abbrev pub until_dequeue : String → List Reply
until_dequeue e = done ∷ done ∷ done ∷ done ∷ done ∷ fails e ∷ []

-- If a task is eligible on a read node of a cluster without a master, and the UPDATE of its
-- `Dequeue` fails after calls that succeed, the worker goes on without a release of the lock of the
-- cluster's workers, and its next round waits for that lock for ever.
pub work_round-leaks_lock :
    (k : Worker) (w : World) (e : String) (r : TaskRow)
    → w.catalog (k.cluster_id <> "-master") ≡ []
    → newest (select (eligible k "read") w.db.tasks) ≡ some r
    → first (λ t. eqb t.id r.id) w.db.tasks ≡ some r
    → ((work_round k (record w { held = []; replies = until_dequeue e })).0 ≡ ok tt)
      × ((work_round k (work_round k (record w { held = []; replies = until_dequeue e })).1).0
          ≡ hangs)
unfolding work_round work_lock work_key is_write_node dequeue call exec_db query service lock
work_round-leaks_lock k w e r reader next known =
    (rw (reader, next, known), rw (reader, next, known, eq_refl))

-- A task with an unknown action is deleted like a finished one, and no error is returned, when the
-- call of the DELETE succeeds.
pub work_task-unknown :
    (r : TaskRow) (w : World)
    → has_handler r.action ≡ false
    → (call w).0 ≡ ok tt
    → ((work_task r w).0 ≡ ok tt) × ((work_task r w).1.db ≡ delete_task r.id w.db)
unfolding work_task exec_db
work_task-unknown r w unknown answered = (rw (unknown, answered), rw (unknown, answered, db-call))

-- If `PrecreateDatabases` of a service node gets its lock and cannot connect, it returns that error without a release of its lock, and
-- the next one waits for the lock for ever.
pub precreate_databases-leaks_lock :
    (fuel : ℕ) (k : Pool) (uuids : ℕ → String × String) (task_data e : String) (w : World)
    → k.work_role ≡ "service"
    → ((precreate_databases fuel k uuids task_data
          (record w { held = []; replies = done ∷ done ∷ fails e ∷ [] })).0
        ≡ err (message e))
      × ((precreate_databases fuel k uuids task_data
            (precreate_databases fuel k uuids task_data
              (record w { held = []; replies = done ∷ done ∷ fails e ∷ [] })).1).0
          ≡ hangs)
unfolding precreate_databases create_key lock call
precreate_databases-leaks_lock fuel k uuids task_data e w service_role =
    (rw service_role, rw (service_role, eq_refl))

-- `RemoveDatabase` does not release its lock when all calls succeed: if there is nothing to remove it
-- returns no error, and the next one waits for the lock for ever.
pub remove_database-keeps_lock :
    (cluster pg_port : String) (w : World)
    → select (is_removable w.now) w.db.instances ≡ []
    → ((remove_database cluster pg_port (record w { held = []; replies = [] })).0 ≡ ok tt)
      × ((remove_database cluster pg_port
            (remove_database cluster pg_port (record w { held = []; replies = [] })).1).0
          ≡ hangs)
unfolding remove_database remove_key remove_each lock call query
remove_database-keeps_lock cluster pg_port w nothing = (rw nothing, rw (nothing, eq_refl))

-- The task that `DecommissionDatabase` enqueues for each node of a service cluster has no kind of
-- node, and no worker's query ever yields it.
pub reconfigure_task-ineligible :
    (k : Worker) (writes : Bool) (now : ℕ) (cluster ip : String)
    → eligible k (node_type_of writes) (row_of_task now (reconfigure_task cluster ip)) ≡ false
reconfigure_task-ineligible k true now cluster ip = ground arith
reconfigure_task-ineligible k false now cluster ip = ground arith

-- `DecommissionDatabase` panics when no row has the database's name and all calls succeed.
pub decommission_database-panics :
    (fuel : ℕ) (cluster role dbname : String) (w : World)
    → first (λ r. r.dbname == dbname) w.db.instances ≡ none
    → (decommission_database fuel cluster role dbname (record w { replies = [] })).0 ≡ panics
unfolding decommission_database call query get_row
decommission_database-panics fuel cluster role dbname w unknown = rw unknown
