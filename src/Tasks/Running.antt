-- ===== src/Tasks/Running.antt =====
-- The parts of a round of the worker: what it leaves when it idles, and when it has run a task.
use rdpg_boshrelease.Base.{
  ℕ, String, ◌≡◌, ◌≢◌, ◌==◌, ◌<>◌, refl, sym, ◌∙◌, ap, Bool, true, false, none, some, List, [], ◌∷◌,
  ◌++◌, append-nil, select, ◌⊎◌, inl, inr, if◌then◌else◌,
}
use rdpg_boshrelease.World.{
  Reply, World, TaskRow, Db, Result, ok, err, panics, hangs, pure, exec_db, sleep, started-exec_db,
  started-unlock, started-sleep, tasks-sleep, held-sleep,
}
use rdpg_boshrelease.World.Triple.{
  Post, Triple, Triple-pure, Triple-weaken, Triple-step, Triple-logged, Triple-frame,
}
use rdpg_boshrelease.World.Holding.{Holds, Triple-unlock, Triple-statement}
use rdpg_boshrelease.Tasks.Queue.{lock_task}
use rdpg_boshrelease.Tasks.Work.{
  Worker, work_key, work_unlock, node_type_of, eligible, newest, has_handler, start, delete_task,
  reset_task, work_task, after_work,
}

-- The goroutines that `t.Work()` starts for a task.
abbrev pub starts : TaskRow → List (String × TaskRow)
starts r = if has_handler r.action then (r.action, r) ∷ [] else []

-- The database, the locks and the goroutines.
abbrev pub Runs : Db → List String → List (String × TaskRow) → World → Type 0
Runs d h s w = Holds d h w × (w.started ≡ s)

-- The first node of the list has the address.
abbrev pub leads : String → List String → Bool
leads ip [] = false
leads ip (a ∷ rest) = a == ip

module _ (k : Worker) (d : Db) (s : List (String × TaskRow)) where
  -- Nothing is done.
  abbrev pub Idle : World → Type 0
  Idle w = (w.held ≡ []) × (w.started ≡ s) × (w.db.tasks ≡ d.tasks)

  -- The worker's lock is held, and nothing else is done.
  abbrev pub Stuck : World → Type 0
  Stuck w = Runs d (work_key k.cluster_id ∷ []) s w

  -- The tasks after the worker has run one: it has gone, or it is locked, or another round may run it.
  abbrev pub Left : ℕ → TaskRow → Db → Type 0
  Left now r d' =
      let l = lock_task k.my_ip now r.id d in
      (d' ≡ delete_task r.id (delete_task r.id l))
      ⊎ ((d' ≡ delete_task r.id l) ⊎ ((d' ≡ l) ⊎ (d' ≡ reset_task r.id l)))

  module _ (c : String → List String) (rs : List Reply) where
    -- The node writes if it is the first that the catalog `c` lists as the cluster's master. A
    -- worker that cannot ask takes it for a reader, which shows that not all calls succeed: there
    -- were replies `rs` to come.
    abbrev pub IsKind : Bool → Type 0
    IsKind writes =
        (writes ≡ leads k.my_ip (c (k.cluster_id <> "-master"))) ⊎ ((writes ≡ false) × (rs ≢ []))

    -- the newest task that is eligible on a node of this kind
    abbrev pub IsPicked : Bool → TaskRow → Type 0
    IsPicked writes r =
        IsKind writes × (newest (select (eligible k (node_type_of writes)) d.tasks) ≡ some r)

    -- No task is eligible on a node of this kind, or a call failed.
    abbrev pub IsExcused : Type 0
    IsExcused =
        ((writes : Bool) × (IsKind writes
            × (newest (select (eligible k (node_type_of writes)) d.tasks) ≡ none)))
        ⊎ (rs ≢ [])

    -- One task was run.
    abbrev pub Ran : World → Type 0
    Ran w =
        (writes : Bool) × (r : TaskRow) × (now : ℕ) × (IsPicked writes r
          × (w.held ≡ [])
          × (w.started ≡ s ++ starts r)
          × Left now r w.db)

    -- `Dequeue` of the task failed.
    abbrev pub Failed : World → Type 0
    Failed w = (writes : Bool) × (r : TaskRow) × (IsPicked writes r × Stuck w)

    abbrev pub Rounded : World → Type 0
    Rounded w = (Idle w × IsExcused) ⊎ (Failed w ⊎ Ran w)

-- the work lock released, whatever the call answers
pub Triple-work_unlock :
    (k : Worker) (d : Db) (s : List (String × TaskRow))
    → Triple (Runs d (work_key k.cluster_id ∷ []) s) (work_unlock k) (λ u. Runs d [] s) (λ e w. ⊥)
unfolding work_unlock
Triple-work_unlock k d s =
    Triple-logged (λ e w p. p)
      (Triple-frame {c = s} (λ w. w.started) (λ w. started-unlock w (work_key k.cluster_id))
        (Triple-unlock d [] (work_key k.cluster_id) refl))

Triple-statement-Runs :
    (f : Db → Db) (d : Db) (s : List (String × TaskRow))
    → Triple (Runs d [] s) (exec_db f) (λ u. Runs (f d) [] s) (λ e. Runs d [] s)
Triple-statement-Runs f d s =
    Triple-frame {c = s} (λ w. w.started) (λ w. started-exec_db w f) (Triple-statement d [] f)

module _ (k : Worker) (d : Db) (s : List (String × TaskRow)) (c : String → List String)
    (rs : List Reply) where
  -- Nothing is done before the worker sleeps.
  pub Triple-Idle :
      (n : ℕ)
      → IsExcused k d s c rs
      → Triple (Runs d [] s) (sleep n) (λ u. Rounded k d s c rs) (λ e w. ⊥)
  unfolding sleep
  Triple-Idle n excused = record {
    at = λ w p. inl (
      (held-sleep w n ∙ p.0.1, started-sleep w n ∙ p.1, tasks-sleep w n ∙ ap (λ e. e.tasks) p.0.0),
      excused,
    );
  }

  pub Triple-after_work :
      (l : Db) (r : TaskRow) (now : ℕ) (writes : Bool)
      → l ≡ lock_task k.my_ip now r.id d
      → IsPicked k d s c rs writes r
      → (result : Result (Unit {0}))
      → Triple
          (λ w.
            Post
              (λ (u : Unit {0}). Runs (delete_task r.id l) [] (s ++ starts r))
              (λ e. Runs l [] (s ++ starts r))
              result
              w)
          (after_work r result)
          (λ u. Rounded k d s c rs)
          (λ e w. ⊥)
  Triple-after_work l r now writes locked chosen (ok u) =
      Triple-logged {E = λ e. Runs (delete_task r.id l) [] (s ++ starts r)}
        (λ e w p. inr (
          inr (
            writes,
            r,
            now,
            (chosen, p.0.1, p.1, inr (inl (p.0.0 ∙ ap (delete_task r.id) locked))),
          )))
        (Triple-weaken (λ w p. p)
          (λ v w p. inr (
            inr (
              writes,
              r,
              now,
              (
                chosen,
                p.0.1,
                p.1,
                inl (p.0.0 ∙ ap (λ x. delete_task r.id (delete_task r.id x)) locked),
              ),
            )))
          (λ e w p. p)
          (Triple-statement-Runs (delete_task r.id) (delete_task r.id l) (s ++ starts r)))
  Triple-after_work l r now writes locked chosen (err e) =
      Triple-logged {E = λ e. Runs l [] (s ++ starts r)}
        (λ e w p.
          inr (inr (writes, r, now, (chosen, p.0.1, p.1, inr (inr (inl (p.0.0 ∙ locked)))))))
        (Triple-weaken (λ w p. p)
          (λ v w p. inr (
            inr (
              writes,
              r,
              now,
              (chosen, p.0.1, p.1, inr (inr (inr (p.0.0 ∙ ap (reset_task r.id) locked)))),
            )))
          (λ e w p. p) (Triple-statement-Runs (reset_task r.id) l (s ++ starts r)))
  Triple-after_work l r now writes locked chosen panics = record { at = λ w p. absurd p }
  Triple-after_work l r now writes locked chosen hangs = record { at = λ w p. absurd p }

Triple-start :
    (b : Bool) (r : TaskRow) (l : Db) (s : List (String × TaskRow))
    → Triple
        (Runs l [] s)
        (if b then start r else pure tt)
        (λ u. Runs l [] (s ++ (if b then (r.action, r) ∷ [] else [])))
        (λ e w. ⊥)
unfolding start
Triple-start true r l s = record { at = λ w p. (p.0, ap (λ x. x ++ ((r.action, r) ∷ [])) p.1) }
Triple-start false r l s = Triple-pure tt λ w p. (p.0, p.1 ∙ sym (append-nil s))

pub Triple-work_task :
    (r : TaskRow) (l : Db) (s : List (String × TaskRow))
    → Triple
        (Runs l [] s)
        (work_task r)
        (λ u. Runs (delete_task r.id l) [] (s ++ starts r))
        (λ e. Runs l [] (s ++ starts r))
unfolding work_task
Triple-work_task r l s =
    Triple-step (Triple-start (has_handler r.action) r l s) (λ e w p. absurd p)
      λ u. Triple-statement-Runs (delete_task r.id) l (s ++ starts r)
