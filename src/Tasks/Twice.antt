-- ===== src/Tasks/Twice.antt =====
-- A task whose deletion fails is run again.
use rdpg_boshrelease.Base.{
  ℕ, String, ◌<>◌, ◌≡◌, refl, ap, ◌∙◌, true, none, List, [], ◌∷◌, ◌++◌, arith, eqb, eq_refl,
}
use rdpg_boshrelease.World.{
  World, TaskRow, Reply, done, fails, call, exec_db, query, service, lock, unlock, release,
}
use rdpg_boshrelease.Tasks.Queue.{dequeue, lock_task}
use rdpg_boshrelease.Tasks.Work.{
  Worker, work_key, work_lock, work_unlock, is_write_node, eligible, has_handler, start,
  delete_task, reset_task, work_task, work_round,
}

-- The calls of a round up to the DELETE of `t.Work()` succeed, and that fails.
abbrev pub until_delete : String → List Reply
until_delete e = done ∷ done ∷ done ∷ done ∷ done ∷ done ∷ done ∷ fails e ∷ []

-- one task in the queue
abbrev pub queued : World → TaskRow → String → World
queued w r e = record w { held = []; replies = until_delete e; db = record w.db { tasks = r ∷ [] } }

-- the task after the worker has unlocked it again
abbrev pub unlocked : TaskRow → TaskRow
unlocked r = record r { locked_by = none; processing_at = none }

eqb_refl : (n : ℕ) → eqb n n ≡ true
eqb_refl n = ground arith

eligible-unlocked :
    (k : Worker) (r : TaskRow) → eligible k "read" r ≡ true → eligible k "read" (unlocked r) ≡ true
eligible-unlocked k r e = ground arith

-- The world after a round in which the DELETE failed.
abbrev failed_round : World → TaskRow → World
failed_round w r = record w {
  held = [];
  replies = [];
  db = record w.db { tasks = unlocked r ∷ [] };
  started = w.started ++ ((r.action, r) ∷ []);
}

unlocked_again :
    (k : Worker) (w : World) (r : TaskRow)
    → reset_task r.id (lock_task k.my_ip w.now r.id (record w.db { tasks = r ∷ [] }))
      ≡ record w.db { tasks = unlocked r ∷ [] }
unfolding reset_task lock_task
unlocked_again k w r = rw eqb_refl (rw eqb_refl refl)

after_failed_delete :
    (k : Worker) (w : World) (e : String) (r : TaskRow)
    → w.catalog (k.cluster_id <> "-master") ≡ []
    → eligible k "read" r ≡ true
    → has_handler r.action ≡ true
    → (work_round k (queued w r e)).1 ≡ failed_round w r
unfolding work_round work_lock work_unlock work_key is_write_node dequeue call exec_db query service
    lock unlock release work_task start delete_task
after_failed_delete k w e r reader runs handled =
    rw (reader, runs, eqb_refl, handled, eq_refl)
      (ap
        (λ x. record w {
          held = [];
          replies = [];
          db = x;
          started = w.started ++ ((r.action, r) ∷ []);
        })
        (unlocked_again k w r))

next_round_starts :
    (k : Worker) (w : World) (r : TaskRow)
    → w.catalog (k.cluster_id <> "-master") ≡ []
    → eligible k "read" r ≡ true
    → has_handler r.action ≡ true
    → (work_round k
        (record w { held = []; replies = []; db = record w.db { tasks = r ∷ [] } })).1.started
      ≡ w.started ++ ((r.action, r) ∷ [])
unfolding work_round work_lock work_unlock work_key is_write_node dequeue lock_task call exec_db
    query service lock unlock release work_task start delete_task
next_round_starts k w r reader runs handled = rw (reader, runs, eqb_refl, handled, eq_refl) refl

-- If the DELETE of `t.Work()` fails, the handler of the task has been started, but the worker
-- unlocks the task as if it had not been, and its next round starts the handler a second time. The
-- task is the only one in the queue, it is eligible on a read node, it has a handler, and Consul knows
-- no master of the cluster.
pub work_round-starts_twice :
    (k : Worker) (w : World) (e : String) (r : TaskRow)
    → w.catalog (k.cluster_id <> "-master") ≡ []
    → eligible k "read" r ≡ true
    → has_handler r.action ≡ true
    → (work_round k (work_round k (queued w r e)).1).1.started
      ≡ (w.started ++ ((r.action, r) ∷ [])) ++ ((r.action, unlocked r) ∷ [])
work_round-starts_twice k w e r reader runs handled =
    ap (λ v. (work_round k v).1.started) (after_failed_delete k w e r reader runs handled)
    ∙ next_round_starts k (failed_round w r) (unlocked r) reader (eligible-unlocked k r runs)
        handled
