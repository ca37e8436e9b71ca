-- ===== src/Instances/Assigning.antt =====
-- `Assign` ends, and the assignment is made.
use rdpg_boshrelease.Base.{
  ℕ, zero, suc, ◌<◌, String, Bool, true, false, length, sym, ◌≡◌, refl, ap, Option, none, some,
  List, [], ◌∷◌, arith, ◌⊎◌, inl, inr,
}
use rdpg_boshrelease.World.{
  Reply, done, fails, no_channel, call, answer, World, InstanceRow, Db, Error, IsMessage, Result,
  ok, err, panics, hangs, service, error_of, return_error,
}
use rdpg_boshrelease.World.Triple.{
  Post, Triple, Triple-pure, Triple-raise, Triple-weaken, Triple-step, Triple-bind, Triple-attempt,
  Triple-gets, Triple-logged, Triple-exec_db, Triple-query,
}
use rdpg_boshrelease.World.Holding.{Holds, Triple-unlock}
use rdpg_boshrelease.World.Measure.{
  Few, Triple-lock_kept, Triple-statement_measured, Triple-unlock_kept, Triple-unlock_absent,
}
use rdpg_boshrelease.Instances.Model.{
  Instance, lock_key, lock_instance, unlock_instance, cluster_ips,
}
use rdpg_boshrelease.Instances.Assign.{
  assign_database, once_assigned, assign_once_locked, assign_loop, enqueue_reconfigure, assign,
}

module _ (i : Instance) (d : Db) where
  -- the assignment is made, and no lock is held
  abbrev Made : World → Type 0
  Made = Holds (assign_database i d) []

  Triple-once_assigned :
      (n : ℕ)
      → Triple (λ w. Holds d [] w × Few n w) (assign_loop n i) (λ u. Made) (λ e w. ⊥)
      → (r : Result (Unit {0}))
      → Triple
          (λ w.
            Post
              (λ (u : Unit {0}) w. Holds (assign_database i d) (lock_key i ∷ []) w × Few (suc n) w)
              (λ e w. Holds d (lock_key i ∷ []) w × Few n w)
              r
              w)
          (once_assigned i (assign_loop n i) r)
          (λ u. Made)
          (λ e w. ⊥)
  unfolding unlock_instance
  Triple-once_assigned n rest (ok u) =
      Triple-weaken (λ w p. p.0) (λ v w p. p) (λ e w p. p)
        (Triple-logged (λ e w p. p) (Triple-unlock (assign_database i d) [] (lock_key i) refl))
  Triple-once_assigned n rest (err e) =
      Triple-bind (Triple-logged (λ e w p. p) (Triple-unlock_kept d [] (lock_key i) n refl)) λ u.
        Triple-bind
          (Triple-logged {Q = λ w. Holds d [] w × Few n w} (λ e w p. p)
            (Triple-weaken (λ w p. p) (λ v w p. absurd p) (λ e w p. p)
              (Triple-unlock_absent {P = λ w. Holds d [] w × Few n w} (lock_key i)
                (λ w p. rw p.0.1))))
          λ v. rest
  Triple-once_assigned n rest panics = record { at = λ w p. absurd p }
  Triple-once_assigned n rest hangs = record { at = λ w p. absurd p }

  Triple-assign_once_locked :
      (n : ℕ)
      → Triple (λ w. Holds d [] w × Few n w) (assign_loop n i) (λ u. Made) (λ e w. ⊥)
      → (r : Result (Unit {0}))
      → Triple
          (λ w.
            Post
              (λ (u : Unit {0}) w. Holds d (lock_key i ∷ []) w × Few (suc n) w)
              (λ e w. Holds d [] w × Few n w)
              r
              w)
          (assign_once_locked i (assign_loop n i) r)
          (λ u. Made)
          (λ e w. ⊥)
  Triple-assign_once_locked n rest (ok u) =
      Triple-bind
        (Triple-attempt (Triple-statement_measured d (lock_key i ∷ []) (assign_database i) n))
        λ r. Triple-once_assigned n rest r
  Triple-assign_once_locked n rest (err e) = rest
  Triple-assign_once_locked n rest panics = record { at = λ w p. absurd p }
  Triple-assign_once_locked n rest hangs = record { at = λ w p. absurd p }

  Triple-assign_loop :
      (n : ℕ) → Triple (λ w. Holds d [] w × Few n w) (assign_loop n i) (λ u. Made) (λ e w. ⊥)
  unfolding assign_loop lock_instance
  Triple-assign_loop zero = record { at = λ w p. absurd (omega (arith, p.1)) }
  Triple-assign_loop (suc n) =
      Triple-bind (Triple-attempt (Triple-lock_kept d [] (lock_key i) n refl))
        λ r. Triple-assign_once_locked n (Triple-assign_loop n) r

-- The table of instances, and no lock.
abbrev pub Table : List InstanceRow → World → Type 0
Table rows w = (w.db.instances ≡ rows) × (w.held ≡ [])

Triple-return_error :
    (rows : List InstanceRow) (e : Option Error)
    → Triple (Table rows) (return_error e) (λ u. Table rows) (λ e. Table rows)
Triple-return_error rows none = Triple-pure tt λ w p. p
Triple-return_error rows (some e) = Triple-raise e λ w p. p

-- The error of an INSERT becomes that of the loop.
Triple-last_error :
    (cluster : String) (rows : List InstanceRow) (ips : List String) (r : Result (Unit {0}))
    → ((x : Option Error)
        → Triple
            (Table rows)
            (enqueue_reconfigure cluster x ips)
            (λ u. Table rows)
            (λ e. Table rows))
    → Triple
        (λ w. Post (λ (u : Unit {0}). Table rows) (λ e w. IsMessage e × Table rows w) r w)
        (enqueue_reconfigure cluster (error_of r) ips)
        (λ u. Table rows)
        (λ e. Table rows)
Triple-last_error cluster rows ips (ok u) rest = rest none
Triple-last_error cluster rows ips (err x) rest =
    Triple-weaken (λ w p. p.1) (λ u w p. p) (λ e w p. p) (rest (some x))
Triple-last_error cluster rows ips panics rest = record { at = λ w p. absurd p }
Triple-last_error cluster rows ips hangs rest = record { at = λ w p. absurd p }

Triple-enqueue_reconfigure :
    (cluster : String) (rows : List InstanceRow) (e : Option Error) (ips : List String)
    → Triple (Table rows) (enqueue_reconfigure cluster e ips) (λ u. Table rows) (λ e. Table rows)
Triple-enqueue_reconfigure cluster rows e [] = Triple-return_error rows e
Triple-enqueue_reconfigure cluster rows e (ip ∷ ips) =
    Triple-bind
      (Triple-weaken (λ w p. p) (λ a w p. p.0) (λ e w p. p)
        (Triple-gets {E = λ e. Table rows} (λ w. w.now)))
      λ now.
        Triple-bind
          (Triple-attempt {F = λ e. Table rows}
            (Triple-exec_db {P = Table rows} (λ w rs p. p) {Q = Table rows} _ (λ w p. p)))
          λ r.
            Triple-last_error cluster rows ips r
              (λ x. Triple-enqueue_reconfigure cluster rows x ips)

-- Does the first call fail?
abbrev pub fails_first : List Reply → Bool
fails_first [] = false
fails_first (done ∷ rs) = false
fails_first (fails e ∷ rs) = true
fails_first (no_channel ∷ rs) = false

Triple-first_call :
    (n : ℕ) (d : Db) (rs : List Reply)
    → Triple
        (λ w. (Holds d [] w × Few n w) × (w.replies ≡ rs))
        call
        (λ u w. Holds d [] w × Few n w)
        (λ e w. Holds d [] w × (fails_first rs ≡ true))
unfolding call
Triple-first_call n d rs = record { at = λ w p. go w w.replies p.1 p.0 }
  where
    go :
        (w : World) (now : List Reply)
        → now ≡ rs
        → Holds d [] w × (length now < n)
        → Post
            (λ (u : Unit {0}) w. Holds d [] w × Few n w)
            (λ e w. Holds d [] w × (fails_first rs ≡ true))
            (answer now w).0
            (answer now w).1
    go w [] e p = p
    go w (done ∷ now) e p = (p.0, omega (arith, p.1))
    go w (fails x ∷ now) e p = (p.0, ap fails_first (sym e))
    go w (no_channel ∷ now) e p = (p.0, omega (arith, p.1))

-- `Assign` ends when its fuel exceeds the replies that are left, in a process that holds no lock,
-- and holds none then, whatever it returns. If it returns no error, the rows of the database, and
-- no others, are assigned to the instance. If it returns an error, that is so too; or its first
-- call, by which it connects, has failed, and the table is as it was.
pub assign-Assigned :
    (n : ℕ) (cluster : String) (i : Instance) (d : Db) (rs : List Reply)
    → Triple
        (λ w. (Holds d [] w × Few n w) × (w.replies ≡ rs))
        (assign n cluster i)
        (λ u. Table (assign_database i d).instances)
        (λ e w.
          (Table d.instances w × (fails_first rs ≡ true)) ⊎ Table (assign_database i d).instances w)
unfolding assign cluster_ips service
assign-Assigned n cluster i d rs =
    Triple-step (Triple-first_call n d rs)
      (λ e w p. inl ((ap (λ x. x.instances) p.0.0, p.0.1), p.1))
      λ u.
        Triple-step (Triple-assign_loop i d n) (λ e w p. absurd p)
          λ v.
            Triple-weaken (λ w p. (ap (λ x. x.instances) p.0, p.1)) (λ x w p. p) (λ e w p. inr p)
              (Triple-step
                (Triple-query {P = Table (assign_database i d).instances} (λ w rs p. p)
                  (λ w. w.catalog i.cluster_id))
                (λ e w p. p.1)
                λ ips.
                  Triple-weaken (λ w p. p.0) (λ x w p. p) (λ e w p. p)
                    (Triple-enqueue_reconfigure cluster (assign_database i d).instances none ips))
