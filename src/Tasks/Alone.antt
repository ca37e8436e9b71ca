-- ===== src/Tasks/Alone.antt =====
-- A round of the worker's loop is a sequence of the moves of a worker.
use rdpg_boshrelease.Base.{
  ℕ, String, ◌≡◌, refl, sym, ap, Bool, Option, none, some, List, [], ◌∷◌, inl, inr, select, subst,
}
use rdpg_boshrelease.World.{World, Reply, TaskRow, Db}
use rdpg_boshrelease.World.Triple.{Triple, Triple-at, Triple-weaken}
use rdpg_boshrelease.Tasks.Queue.{lock_task}
use rdpg_boshrelease.Tasks.Work.{Worker, node_type_of, eligible, newest, work_round}
use rdpg_boshrelease.Tasks.Crowd.{
  idle, working, Shared, takes_lock, dequeue_fails, chooses, dequeues, unlocks, deletes, completes,
  delete_fails, reset_fails, Moves, stays, goes,
}
use rdpg_boshrelease.Tasks.Running.{Runs, Left, Rounded}
use rdpg_boshrelease.Tasks.Rounds.{work_round-Rounded}

-- the holder of the lock, when only the worker `i` may hold one
abbrev pub owner_of : ℕ → List String → Option ℕ
owner_of i [] = none
owner_of i (key ∷ keys) = some i

-- A state that the worker `i` reaches by moves when it begins alone, with the lock free.
abbrev pub IsMoved : Worker → ℕ → Db → World → Type 0
IsMoved k i d w =
    (d' : Db) × (Moves k i (record { db = d; owner = none }) idle
      (record { db = d'; owner = owner_of i w.held }) idle)
    × (d'.tasks ≡ w.db.tasks)

module _ (k : Worker) (i : ℕ) (d : Db) (s : List (String × TaskRow)) where
  abbrev Free : Shared
  Free = record { db = d; owner = none }

  abbrev To : ℕ → TaskRow → Db → Type 0
  To now r d' =
      Moves k i (record { db = lock_task k.my_ip now r.id d; owner = none }) (working r)
        (record { db = d'; owner = none }) idle

  -- The moves up to the unlock.
  Moves-before_work :
      (writes : Bool) (r : TaskRow) (now : ℕ) (d' : Db)
      → newest (select (eligible k (node_type_of writes)) d.tasks) ≡ some r
      → To now r d'
      → Moves k i (record { db = d; owner = none }) idle (record { db = d'; owner = none }) idle
  Moves-before_work writes r now d' chosen rest =
      goes takes_lock
        (goes (chooses (node_type_of writes) r chosen) (goes (dequeues now) (goes unlocks rest)))

  Left-Moves : (now : ℕ) (r : TaskRow) (d' : Db) → Left k d s now r d' → To now r d'
  Left-Moves now r d' (inl e) = subst (To now r) (sym e) (goes deletes (goes completes stays))
  Left-Moves now r d' (inr (inl e)) =
      subst (To now r) (sym e) (goes deletes (goes reset_fails stays))
  Left-Moves now r d' (inr (inr (inl e))) = subst (To now r) (sym e) (goes reset_fails stays)
  Left-Moves now r d' (inr (inr (inr e))) = subst (To now r) (sym e) (goes delete_fails stays)

  module _ (c : String → List String) (rs : List Reply) where
    Rounded-IsMoved : (w : World) → Rounded k d s c rs w → IsMoved k i d w
    Rounded-IsMoved w (inl (p, excused)) = (
      d,
      subst (λ h. Moves k i Free idle (record { db = d; owner = owner_of i h }) idle) (sym p.0)
          stays,
      sym p.2,
    )
    Rounded-IsMoved w (inr (inl (writes, r, (picked, p)))) = (
      d,
      subst (λ h. Moves k i Free idle (record { db = d; owner = owner_of i h }) idle) (sym p.0.1)
          (goes takes_lock
            (goes (chooses (node_type_of writes) r picked.1) (goes dequeue_fails stays))),
      ap (λ e. e.tasks) (sym p.0.0),
    )
    Rounded-IsMoved w (inr (inr (writes, r, now, (picked, held, ran, left)))) = (
      w.db,
      subst (λ h. Moves k i Free idle (record { db = w.db; owner = owner_of i h }) idle) (sym held)
          (Moves-before_work writes r now w.db picked.1 (Left-Moves now r w.db left)),
      refl,
    )

  -- A round of the worker's loop, begun with no lock, ends with no error, whatever fails, and has
  -- done what a sequence of the moves of the worker does, from the free lock and the tasks of then
  -- to its end: the tasks are those after the moves, and the worker holds the lock if it is left
  -- with the lock by the moves.
  pub work_round-IsMoved : Triple (Runs d [] s) (work_round k) (λ u. IsMoved k i d) (λ e w. ⊥)
  work_round-IsMoved = Triple-at λ w p.
      Triple-weaken
        (λ v e.
          subst (λ x. Runs d [] s x × ((x.catalog ≡ w.catalog) × (x.replies ≡ w.replies))) (sym e)
            (p, (refl, refl)))
        (λ u v q. Rounded-IsMoved w.catalog w.replies v q) (λ e v q. q)
        (work_round-Rounded k d s w.catalog w.replies)
