-- ===== src/Instances/Provisioning.antt =====
-- `Provision` ends, and gives away one available database.
use rdpg_boshrelease.Base.{
  ℕ, zero, suc, ◌+◌, ◌≤◌, ◌≡◌, refl, sym, ◌∙◌, subst, ap, ◌==◌, Option, none, some, List, [], ◌∷◌,
  ◌++◌, append-nil, append_assoc, first, arith, inl, inr, ltb, false≢true,
}
use rdpg_boshrelease.World.{
  World, InstanceRow, Db, Error, no_rows, message, Result, ok, err, panics, hangs, Exec, get_row,
  sleep, arrived,
}
use rdpg_boshrelease.World.Triple.{
  Post, Triple, Triple-raise, Triple-if, Triple-weaken, Triple-step, Triple-bind, Triple-attempt,
  Triple-get_row, Triple-given, Triple-at, Triple-and,
}
use rdpg_boshrelease.World.Holding.{Holds}
use rdpg_boshrelease.World.Measure.{Few, Triple-get_row_kept, Triple-call-Few, Triple-lock_measured}
use rdpg_boshrelease.Instances.Model.{Instance, lock_key, lock_instance}
use rdpg_boshrelease.Instances.Assign.{
  next_available, assign_database, once_locked, take_found, once_chosen, provision_loop, provision,
}
use rdpg_boshrelease.Instances.Lookup.{Found, Triple-find_by_database}
use rdpg_boshrelease.Instances.Choice.{IsChoice, next_available-IsChoice}
use rdpg_boshrelease.Instances.Provisioned.{
  Grown, given, Provisioned, Unfinished, Triple-assign_and_tell, Triple-find_kept,
}

-- Before a round: nothing but arrivals, no lock, and fewer than `n` replies.
abbrev Searching : Db → ℕ → World → Type 0
Searching d n w = Grown d w.db × (w.held ≡ []) × Few n w

Triple-sleep :
    {E : Error → World → Type 0} (d : Db) (n : ℕ)
    → Triple (Searching d n) (sleep 10) (λ u. Searching d n) E
unfolding sleep
Triple-sleep d n = record { at = λ w p. go w w.arrivals p }
  where
    go :
        (w : World) (later : List (List InstanceRow))
        → Searching d n w
        → Grown d (arrived later w).db × ((arrived later w).held ≡ []) × Few n (arrived later w)
    go w [] p = p
    go w (rows ∷ later) p = let (old, e) = p.0 in ((old ++ rows, rw (e, append_assoc)), p.1, p.2)

module _ (d : Db) (i : Instance) where
  abbrev Done : Instance → World → Type 0
  Done j w = Provisioned d i j w.db × (w.held ≡ [])

  -- One more round after a lock that was not acquired, or the assignment.
  Triple-once_locked :
      (again : Exec Instance) (d0 : Db) (r x : InstanceRow) (n : ℕ)
      → Grown d d0
      → IsChoice d0 r
      → first (λ s. s.dbname == r.dbname) d0.instances ≡ some x
      → Triple (Searching d n) again Done (λ e. Unfinished d i)
      → (l : Result (Unit {0}))
      → Triple
          (λ w.
            Post
              (λ (u : Unit {0}). Holds d0 (lock_key (given i x) ∷ []))
              (λ e w. Holds d0 [] w × Few n w)
              l
              w)
          (once_locked again (given i x) l)
          Done
          (λ e. Unfinished d i)
  Triple-once_locked again d0 r x n grown choice row rest (ok u) =
      Triple-weaken (λ w p. p)
        (λ j w p. (
          (
            d0,
            r,
            x,
            (grown, choice, row, p.0, rw p.1.0 (ap (λ k. assign_database k d0) (sym p.0))),
          ),
          p.1.1,
        ))
        (λ e w p. elim p [
          | inl q ↦ inl (subst (Grown d) (sym q) grown)
          | inr q ↦ inr (given i x, (d0, r, x, (grown, choice, row, refl, q)))
        ])
        (Triple-assign_and_tell (given i x) d0)
  Triple-once_locked again d0 r x n grown choice row rest (err e) =
      Triple-weaken (λ w p. (subst (Grown d) (sym p.0.0) grown, p.0.1, p.1)) (λ j w p. p)
        (λ e w p. p) rest
  Triple-once_locked again d0 r x n grown choice row rest panics = record { at = λ w p. absurd p }
  Triple-once_locked again d0 r x n grown choice row rest hangs = record { at = λ w p. absurd p }

  Triple-take_found :
      (again : Exec Instance) (d0 : Db) (r : InstanceRow) (n : ℕ)
      → Grown d d0
      → IsChoice d0 r
      → Triple (Searching d n) again Done (λ e. Unfinished d i)
      → (o : Option Instance) → Found d0 r.dbname o
      → Triple
          (λ w. Holds d0 [] w × Few (suc n) w)
          (take_found again i o)
          Done
          (λ e. Unfinished d i)
  unfolding lock_instance
  Triple-take_found again d0 r n grown choice rest none absent =
      absurd (false≢true (sym absent ∙ choice.1))
  Triple-take_found again d0 r n grown choice rest (some ni) (x, row, same) =
      subst
        (λ k.
          Triple (λ w. Holds d0 [] w × Few (suc n) w) (take_found again i (some k)) Done
            (λ e. Unfinished d i))
        (sym same)
        (Triple-bind
          (Triple-attempt {F = λ e. Unfinished d i}
            (Triple-lock_measured d0 [] (lock_key (given i x)) n refl))
          (Triple-once_locked again d0 r x n grown choice row rest))

  Triple-choice :
      (n : ℕ)
      → Triple
          (Searching d (suc n))
          (get_row (λ v. next_available v.db))
          (λ r w. Searching d (suc n) w × (next_available w.db ≡ some r))
          (λ e w. Searching d (suc n) w)
  Triple-choice n =
      Triple-weaken (λ w p. ((p.0, p.1), p.2)) (λ r w p. ((p.0.0.0, p.0.0.1, p.1), p.0.1))
        (λ e w p. (p.0.0.0, p.0.0.1, p.1))
        (Triple-and (Triple-get_row {P = λ w. Grown d w.db × (w.held ≡ [])} (λ w rs p. p) _)
          (Triple-get_row_kept (suc n) _))

  Triple-once_chosen :
      (again : ℕ → Exec Instance) (fuel a n : ℕ)
      → suc fuel + a ≡ suc n + 3
      → a ≤ 3
      → ((n a : ℕ)
          → fuel + a ≡ n + 3
          → a ≤ 3
          → Triple (Searching d n) (again a) Done (λ e. Unfinished d i))
      → (c : Result InstanceRow)
      → Triple
          (λ w.
            Post
              (λ r w. Searching d (suc n) w × (next_available w.db ≡ some r))
              (λ e w. Searching d (suc n) w)
              c
              w)
          (once_chosen again a i c)
          Done
          (λ e. Unfinished d i)
  Triple-once_chosen again fuel a n left few rest (ok r) = Triple-at λ w p.
      let d0 = w.db in
      let grown = p.0.0 in
      let choice = next_available-IsChoice d0 r p.1 in
      Triple-weaken {P' = λ v. Holds d0 [] v × Few (suc n) v} (λ v e. rw e ((refl, p.0.1), p.0.2))
        (λ j v q. q) (λ e v q. q)
        (Triple-step
          (Triple-and (Triple-find_by_database d0 [] r.dbname) (Triple-find_kept (suc n) r.dbname))
          (λ e v q. inl (subst (Grown d) (sym q.0.0) grown))
          λ o. Triple-given λ v q.
            Triple-weaken (λ v k. (k.0.0, k.1)) (λ j v k. k) (λ e v k. k)
              (Triple-take_found (again a) d0 r n grown choice (rest n a (omega (arith, left)) few)
                o q.0.1))
  Triple-once_chosen again fuel a n left few rest (err no_rows) =
      Triple-if (ltb a 3) _ _
        (λ lt.
          Triple-bind (Triple-sleep d (suc n))
            λ u. rest (suc n) (a + 1) (omega (arith, left)) (ground arith))
        (λ ge. Triple-raise _ λ w p. inl p.0)
  Triple-once_chosen again fuel a n left few rest (err (message e)) = Triple-raise _ λ w p. inl p.0
  Triple-once_chosen again fuel a n left few rest panics = record { at = λ w p. absurd p }
  Triple-once_chosen again fuel a n left few rest hangs = record { at = λ w p. absurd p }

  Triple-provision_loop :
      (fuel n a : ℕ)
      → fuel + a ≡ n + 3
      → a ≤ 3
      → Triple (Searching d n) (provision_loop fuel a i) Done (λ e. Unfinished d i)
  unfolding provision_loop
  Triple-provision_loop fuel zero a left few = record { at = λ w p. absurd (omega (arith, p.2)) }
  Triple-provision_loop zero (suc n) a left few = absurd (omega (arith, left, few))
  Triple-provision_loop (suc fuel) (suc n) a left few =
      Triple-bind (Triple-attempt {F = λ e. Unfinished d i} (Triple-choice n)) (
        Triple-once_chosen (λ b. provision_loop fuel b i) fuel a n left few
          (Triple-provision_loop fuel))

-- `Provision` ends when its fuel exceeds the replies that are left by three: whatever fails, and
-- whatever rows other processes insert meanwhile, it neither waits for ever nor panics, in a
-- process that holds no lock. If it returns no error, the instance has the database of a row that
-- was available at that moment, no available one being older, and the table is as it was then
-- except that the rows of this database are assigned to the instance; no lock is held. If it returns an error, the table has only grown by the rows of
-- others, or that assignment is done and it was the service cluster that could not be told.
pub provision-Provisioned :
    (n : ℕ) (i : Instance) (d : Db)
    → Triple
        (λ w. Holds d [] w × Few n w)
        (provision (n + 3) i)
        (λ j w. Provisioned d i j w.db × (w.held ≡ []))
        (λ e. Unfinished d i)
unfolding provision
provision-Provisioned n i d =
    Triple-step (Triple-call-Few {P = Holds d []} n (λ w rs p. p))
      (λ e w p. inl ([], rw (p.0, append-nil)))
      λ u.
        Triple-weaken (λ w p. (([], rw (p.0.0, append-nil)), p.0.1, p.1)) (λ j w p. p) (λ e w p. p)
          (Triple-provision_loop d i (n + 3) n 0 (omega arith) (omega arith))
