-- ===== src/Instances/Provisioned.antt =====
-- What `Provision` leaves, and its last part: the assignment under the lock.
use rdpg_boshrelease.Base.{
  ℕ, String, ◌≡◌, refl, ◌==◌, some, List, [], ◌∷◌, ◌++◌, first, ◌⊎◌, inl, inr,
}
use rdpg_boshrelease.World.{
  World, InstanceRow, Db, no_rows, message, Result, ok, err, panics, hangs, service,
}
use rdpg_boshrelease.World.Triple.{
  Post, Triple, Triple-pure, Triple-raise, Triple-weaken, Triple-step, Triple-bind, Triple-attempt,
  Triple-logged, Triple-query,
}
use rdpg_boshrelease.World.Holding.{Holds, Triple-unlock, Triple-statement, Triple-send}
use rdpg_boshrelease.World.Measure.{Few, Triple-call_kept, Triple-get_row_kept}
use rdpg_boshrelease.Instances.Model.{Instance, lock_key, unlock_instance}
use rdpg_boshrelease.Instances.Find.{found_database, find_by_database}
use rdpg_boshrelease.Instances.Assign.{assign_database, tell, assign_and_tell}
use rdpg_boshrelease.Instances.Choice.{IsChoice}

-- The database with the instances that other processes have inserted.
abbrev pub with_rows : Db → List InstanceRow → Db
with_rows d rows = record d { instances = d.instances ++ rows }

abbrev pub Grown : Db → Db → Type 0
Grown d d' = (rows : List InstanceRow) × (d' ≡ with_rows d rows)

-- An instance with the database of a row.
abbrev pub given : Instance → InstanceRow → Instance
given i r = record i {
  cluster_id = r.cluster_id;
  database = r.dbname;
  user = r.dbuser;
  pass = r.dbpass;
}

-- The instance has the database of the choice among the rows at some moment, and is written to its
-- row.
abbrev pub Provisioned : Db → Instance → Instance → Db → Type 0
Provisioned d i j d' =
    (d0 : Db) × (r : InstanceRow) × (x : InstanceRow) × (Grown d d0
      × IsChoice d0 r
      × (first (λ s. s.dbname == r.dbname) d0.instances ≡ some x)
      × (j ≡ given i x)
      × (d' ≡ assign_database j d0))

-- after an error: nothing but arrivals, or an assignment that was not told
abbrev pub Unfinished : Db → Instance → World → Type 0
Unfinished d i w = Grown d w.db ⊎ ((j : Instance) × Provisioned d i j w.db)

Triple-tell :
    (j : Instance) (d : Db) (h : List String) (ips : List String)
    → Triple (Holds d h) (tell j ips) (λ k w. (k ≡ j) × Holds d h w) (λ e. Holds d h)
Triple-tell j d h [] = Triple-pure j λ w p. (refl, p)
Triple-tell j d h (ip ∷ ips) = Triple-bind (Triple-send d h _) λ u. Triple-pure j λ w p. (refl, p)

module _ (j : Instance) (d0 : Db) where
  -- the assignment under the lock, and what follows it
  pub Triple-assign_and_tell :
      Triple
        (Holds d0 (lock_key j ∷ []))
        (assign_and_tell j)
        (λ k w. (k ≡ j) × Holds (assign_database j d0) [] w)
        (λ e w. (w.db ≡ d0) ⊎ (w.db ≡ assign_database j d0))
  unfolding assign_and_tell unlock_instance service
  Triple-assign_and_tell =
      Triple-step (Triple-statement d0 (lock_key j ∷ []) (assign_database j)) (λ e w p. inl p.0)
        λ u.
          Triple-step
            (Triple-logged {F = λ e w. ⊥} (λ e w p. p)
              (Triple-unlock (assign_database j d0) [] (lock_key j) refl))
            (λ e w p. absurd p)
            λ v.
              Triple-step
                (Triple-query {P = Holds (assign_database j d0) []} (λ w rs p. p)
                  (λ w. w.catalog j.cluster_id))
                (λ e w p. inr p.1.0)
                λ ips.
                  Triple-weaken (λ w p. p.0) (λ k w p. p) (λ e w p. inr p.0)
                    (Triple-tell j (assign_database j d0) [] ips)

pub Triple-find_kept :
    (n : ℕ) (name : String) → Triple (Few n) (find_by_database name) (λ o. Few n) (λ e. Few n)
unfolding find_by_database
Triple-find_kept n name =
    Triple-bind (Triple-call_kept n)
      λ u. Triple-bind (Triple-attempt {F = λ e. Few n} (Triple-get_row_kept n _)) λ r. go r
  where
    go :
        (r : Result InstanceRow)
        → Triple
            (λ w. Post (λ (a : InstanceRow). Few n) (λ e. Few n) r w)
            (found_database r)
            (λ o. Few n)
            (λ e. Few n)
    go (ok a) = Triple-pure _ λ w p. p
    go (err no_rows) = Triple-pure _ λ w p. p
    go (err (message e)) = Triple-raise _ λ w p. p
    go panics = record { at = λ w p. absurd p }
    go hangs = record { at = λ w p. absurd p }
