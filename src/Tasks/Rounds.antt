-- ===== src/Tasks/Rounds.antt =====
-- What a round of the worker does.
use rdpg_boshrelease.Base.{
  ℕ, String, ◌<>◌, ◌≡◌, ◌≢◌, refl, ap, sym, ◌∙◌, Bool, Option, none, some, List, [], ◌∷◌, select,
  inl, inr,
}
use rdpg_boshrelease.World.{TaskRow, Db, Result, ok, err, panics, hangs, service, World, Reply}
use rdpg_boshrelease.World.Triple.{
  Post, Triple, Triple-pure, Triple-weaken, Triple-bind, Triple-step, Triple-attempt, Triple-query,
  Triple-known, Triple-gets, Triple-and, Triple-exists, Triple-exec_db,
}
use rdpg_boshrelease.World.Calm.{Calm, Triple-query-Calm, Triple-lock-Calm}
use rdpg_boshrelease.Tasks.Queue.{lock_task, lock_known, dequeue}
use rdpg_boshrelease.Tasks.Queueing.{dequeue-Locked}
use rdpg_boshrelease.Tasks.Work.{
  Worker, work_key, work_lock, is_first, is_write_node, node_type_of, eligible, newest,
  after_dequeue, after_select, after_lock, work_round,
}
use rdpg_boshrelease.Tasks.Running.{
  Runs, Stuck, Rounded, IsKind, IsPicked, leads, Triple-work_unlock, Triple-Idle, Triple-after_work,
  Triple-work_task,
}

-- `Dequeue` starts nothing.
Triple-dequeue_started :
    (my_ip : String) (id : ℕ) (s : List (String × TaskRow))
    → Triple (λ w. w.started ≡ s) (dequeue my_ip id) (λ u w. w.started ≡ s) (λ e w. w.started ≡ s)
unfolding dequeue
Triple-dequeue_started my_ip id s =
    Triple-step (Triple-query {P = λ w. w.started ≡ s} (λ w rs p. p) _) (λ e w p. p.1)
      λ row.
        Triple-bind
          (Triple-weaken (λ w p. p.0) (λ a w p. p.0) (λ e w p. p)
            (Triple-gets {E = λ e w. w.started ≡ s} (λ w. w.now)))
          λ now. go now row
  where
    go :
        (now : ℕ) (row : Option TaskRow)
        → Triple
            (λ w. w.started ≡ s)
            (lock_known my_ip now row)
            (λ u w. w.started ≡ s)
            (λ e w. w.started ≡ s)
    go now none = Triple-pure tt λ w p. p
    go now (some row) =
        Triple-weaken (λ w p. p) (λ u w p. p) (λ e w p. p.1)
          (Triple-exec_db {P = λ w. w.started ≡ s} (λ w rs p. p) {Q = λ w. w.started ≡ s}
            (lock_task my_ip now row.id) (λ w p. p))

module _ (k : Worker) (d : Db) (s : List (String × TaskRow)) where
  Triple-dequeue-Runs :
      (id : ℕ)
      → Triple
          (Stuck k d s)
          (dequeue k.my_ip id)
          (λ u w. (now : ℕ) × Runs (lock_task k.my_ip now id d) (work_key k.cluster_id ∷ []) s w)
          (λ e. Stuck k d s)
  Triple-dequeue-Runs id =
      Triple-weaken (λ w p. p) (λ u w p. (p.0.0, (p.0.1, p.1))) (λ e w p. p)
        (Triple-and (dequeue-Locked k.my_ip id d (work_key k.cluster_id ∷ []))
          (Triple-dequeue_started k.my_ip id s))

module _ (k : Worker) (d : Db) (s : List (String × TaskRow)) (c : String → List String)
    (rs : List Reply) where
  Triple-after_dequeue :
      (r : TaskRow) (writes : Bool)
      → IsPicked k d s c rs writes r
      → (result : Result (Unit {0}))
      → Triple
          (λ w.
            Post
              (λ (u : Unit {0}) w.
                (now : ℕ) × Runs (lock_task k.my_ip now r.id d) (work_key k.cluster_id ∷ []) s w)
              (λ e. Stuck k d s)
              result
              w)
          (after_dequeue k r result)
          (λ u. Rounded k d s c rs)
          (λ e w. ⊥)
  Triple-after_dequeue r writes picked (ok u) = Triple-exists λ now.
      let l = lock_task k.my_ip now r.id d in
      Triple-bind (Triple-work_unlock k l s) λ v.
        Triple-bind (Triple-attempt (Triple-work_task r l s))
          λ result. Triple-after_work k d s c rs l r now writes refl picked result
  Triple-after_dequeue r writes picked (err e) =
      Triple-pure tt λ w p. inr (inl (writes, r, (picked, p)))
  Triple-after_dequeue r writes picked panics = record { at = λ w p. absurd p }
  Triple-after_dequeue r writes picked hangs = record { at = λ w p. absurd p }

  Triple-after_select :
      (writes : Bool) (found : Result (Option TaskRow))
      → IsKind k d s c rs writes
      → Triple
          (λ w.
            Post
              (λ o w.
                Stuck k d s w × (newest (select (eligible k (node_type_of writes)) d.tasks) ≡ o))
              (λ e w. Stuck k d s w × (rs ≢ []))
              found
              w)
          (after_select k found)
          (λ u. Rounded k d s c rs)
          (λ e w. ⊥)
  Triple-after_select writes (ok none) kind = Triple-known λ no_task.
      Triple-bind (Triple-work_unlock k d s)
        λ u. Triple-Idle k d s c rs 5 (inl (writes, (kind, no_task)))
  Triple-after_select writes (ok (some r)) kind = Triple-known λ chosen.
      Triple-bind (Triple-attempt (Triple-dequeue-Runs k d s r.id))
        λ result. Triple-after_dequeue r writes (kind, chosen) result
  Triple-after_select writes (err e) kind =
      Triple-known
        λ failed. Triple-bind (Triple-work_unlock k d s) λ u. Triple-Idle k d s c rs 5 (inr failed)
  Triple-after_select writes panics kind = record { at = λ w p. absurd p }
  Triple-after_select writes hangs kind = record { at = λ w p. absurd p }

  -- with the lock, and with the catalog
  abbrev Asks : World → Type 0
  Asks w = (Stuck k d s w × (w.catalog ≡ c)) × Calm rs w

  Triple-is_write_node :
      Triple Asks (is_write_node k) (λ b w. Asks w × IsKind k d s c rs b) (λ e w. ⊥)
  unfolding is_write_node service
  Triple-is_write_node =
      Triple-bind
        (Triple-attempt (
          Triple-query-Calm rs {P = λ w. Stuck k d s w × (w.catalog ≡ c)} (λ w now p. p)
            (λ w. w.catalog (k.cluster_id <> "-master"))))
        go
    where
      listed :
          (w : World) (ips : List String)
          → w.catalog ≡ c
          → w.catalog (k.cluster_id <> "-master") ≡ ips
          → c (k.cluster_id <> "-master") ≡ ips
      listed w ips same e = ap (λ f. f (k.cluster_id <> "-master")) (sym same) ∙ e

      go :
          (r : Result (List String))
          → Triple
              (λ w.
                Post
                  (λ (a : List String) w. Asks w × (w.catalog (k.cluster_id <> "-master") ≡ a))
                  (λ e w. (Stuck k d s w × (w.catalog ≡ c)) × (rs ≢ []))
                  r
                  w)
              (is_first k.my_ip r)
              (λ b w. Asks w × IsKind k d s c rs b)
              (λ e w. ⊥)
      go (ok []) =
          Triple-pure _ λ w p. (p.0, inl (ap (leads k.my_ip) (sym (listed w [] p.0.0.1 p.1))))
      go (ok (a ∷ rest)) =
          Triple-pure _
            λ w p. (p.0, inl (ap (leads k.my_ip) (sym (listed w (a ∷ rest) p.0.0.1 p.1))))
      go (err e) = Triple-pure _ λ w p. ((p.0, λ q. absurd (p.1 q)), inr (refl, p.1))
      go panics = record { at = λ w p. absurd p }
      go hangs = record { at = λ w p. absurd p }

  Triple-after_lock :
      (locked : Result (Unit {0}))
      → Triple
          (λ w. Post (λ (u : Unit {0}). Asks) (λ e w. Runs d [] s w × (rs ≢ [])) locked w)
          (after_lock k locked)
          (λ u. Rounded k d s c rs)
          (λ e w. ⊥)
  Triple-after_lock (ok u) = Triple-bind Triple-is_write_node λ writes. Triple-known λ kind.
      Triple-bind
        (Triple-attempt (
          Triple-weaken (λ w p. (p.0.0, p.1)) (λ o w p. (p.0.0, rw p.0.0.0.0 at p.1)) (λ e w p. p)
            (Triple-query-Calm rs {P = Stuck k d s} (λ w now p. p)
              (λ w. newest (select (eligible k (node_type_of writes)) w.db.tasks)))))
        λ found. Triple-after_select writes found kind
  Triple-after_lock (err e) = Triple-known λ failed. Triple-Idle k d s c rs 10 (inr failed)
  Triple-after_lock panics = record { at = λ w p. absurd p }
  Triple-after_lock hangs = record { at = λ w p. absurd p }

  pub work_round-Rounded :
      Triple
        (λ w. Runs d [] s w × ((w.catalog ≡ c) × (w.replies ≡ rs)))
        (work_round k)
        (λ u. Rounded k d s c rs)
        (λ e w. ⊥)
  unfolding work_round work_lock
  work_round-Rounded =
      Triple-bind
        (Triple-attempt (
          Triple-weaken (λ w p. (((p.0.0.0, (p.0.1, p.1.0)), p.0.0.1), λ e. p.1.1 ∙ e))
            (λ u w p. ((((p.0.0.0, p.0.1), p.0.0.1.0), p.0.0.1.1), p.1))
            (λ e w p. (((p.0.0.0, p.0.1), p.0.0.1.0), p.1))
            (Triple-lock-Calm rs {P = λ w. (w.db ≡ d) × ((w.started ≡ s) × (w.catalog ≡ c))}
              (work_key k.cluster_id) (λ w now p. p) (λ w held p. p))))
        Triple-after_lock
