-- ===== src/Instances/Changes.antt =====
-- What `Register`, `Assign` and `Decommission` leave in the database.
use rdpg_boshrelease.Base.{
  ℕ, String, ◌≡◌, refl, sym, subst, false, ◌||◌, ◌&&◌, ◌==◌, some, List, [], ◌∷◌, any, set_where,
  member, arith, ◌⊎◌, inl, inr,
}
use rdpg_boshrelease.World.{World, InstanceRow, Db, Error, gets}
use rdpg_boshrelease.World.Triple.{
  Triple, Triple-weaken, Triple-step, Triple-bind, Triple-call, Triple-gets, Triple-logged,
}
use rdpg_boshrelease.World.Holding.{Holds, Triple-lock, Triple-unlock, Triple-statement}
use rdpg_boshrelease.Instances.Model.{Instance, lock_key, lock_instance, unlock_instance}
use rdpg_boshrelease.Instances.Find.{is_available, is_active}
use rdpg_boshrelease.Instances.Assign.{
  insert_row, fresh_row, register, insert_task, new_task, retire_database, decommission,
}
use rdpg_boshrelease.Instances.Lookup.{Triple-db}

Triple-now :
    {E : Error → World → Type 0} (d : Db) (h : List String)
    → Triple (Holds d h) (gets (λ w. w.now)) (λ now. Holds d h) E
Triple-now d h = Triple-weaken (λ w p. p) (λ a w p. p.0) (λ e w p. p) (Triple-gets (λ w. w.now))

module _ (i : Instance) (d : Db) (h : List String) where
  -- The table of instances is as it was, or the database is registered.
  abbrev pub Registered : Db → Type 0
  Registered d' = (d' ≡ d) ⊎ ((now : ℕ) × (d' ≡ insert_row (fresh_row now i) d))

  -- `Register` returns, where the process does not hold the database's lock, and holds no lock more
  -- then, whether it returns an error or not. The table is as it was, or has one row more: that of
  -- the database, which is available.
  pub register-Registered :
      member (lock_key i) h ≡ false
      → Triple
          (Holds d h)
          (register i)
          (λ u w. Registered w.db × (w.held ≡ h))
          (λ e w. Registered w.db × (w.held ≡ h))
  unfolding register lock_instance unlock_instance
  register-Registered free =
      Triple-step (Triple-call (λ w rs p. p)) (λ e w p. (inl p.1.0, p.1.1))
        λ u.
          Triple-step (Triple-lock d h (lock_key i) free) (λ e w p. (inl p.0, p.1))
            λ v. Triple-bind (Triple-now d (lock_key i ∷ h)) λ now.
              Triple-step
                (Triple-logged {Q = λ w. Registered w.db × (w.held ≡ lock_key i ∷ h)}
                  {E = λ e. Holds d (lock_key i ∷ h)} {F = λ e w. ⊥} (λ e w p. (inl p.0, p.1))
                  (Triple-weaken (λ w p. p) (λ x w p. (inr (now, p.0), p.1)) (λ e w p. p)
                    (Triple-statement d (lock_key i ∷ h) (insert_row (fresh_row now i)))))
                (λ e w p. absurd p)
                λ x. Triple-db {R = Registered} λ d' r.
                  Triple-weaken (λ w p. p) (λ y w p. (subst Registered (sym p.0) r, p.1))
                    (λ e w p. (subst Registered (sym p.0) r, p.1))
                    (Triple-unlock d' h (lock_key i) free)

-- Of a retired database no row is available or active.
pub retire_database-gone :
    (now : ℕ) (n : String) (d : Db)
    → any
        (λ r. r.dbname == n && (is_available r || is_active r))
        (retire_database now n d).instances
      ≡ false
unfolding retire_database
retire_database-gone now n d = go d.instances
  where
    go :
        (xs : List InstanceRow)
        → any
            (λ r. r.dbname == n && (is_available r || is_active r))
            (set_where (λ r. r.dbname == n) (λ r. record r { ineffective_at = some now }) xs)
          ≡ false
    go [] = refl
    go (x ∷ xs) = ground (arith, go xs)

module _ (cluster : String) (i : Instance) (d : Db) (h : List String) where
  -- The database is retired, or its UPDATE failed.
  abbrev pub Retired : Db → Type 0
  Retired d' = (d' ≡ d) ⊎ ((now : ℕ) × (d' ≡ retire_database now i.database d))

  -- the task of `Decommission`
  abbrev pub Queued : Db → Type 0
  Queued d' =
      (before : Db) × (now : ℕ) × (Retired before
        × (d'
            ≡ insert_task (new_task now cluster "*" "all" "DecommissionDatabase" i.database)
                before))

  -- `Decommission` returns. If it returns no error, a task DecommissionDatabase for the database is
  -- queued for every node and role of the cluster, and the database is retired unless that UPDATE
  -- failed, of which the error is not returned. If it returns an error there is no new task.
  pub decommission-Queued :
      Triple (Holds d h) (decommission cluster i) (λ u w. Queued w.db) (λ e w. Retired w.db)
  unfolding decommission
  decommission-Queued =
      Triple-step (Triple-call (λ w rs p. p)) (λ e w p. inl p.1.0)
        λ u. Triple-bind (Triple-now d h) λ now.
          Triple-step
            (Triple-logged {Q = λ w. Retired w.db × (w.held ≡ h)} {E = λ e. Holds d h}
              {F = λ e w. ⊥} (λ e w p. (inl p.0, p.1))
              (Triple-weaken (λ w p. p) (λ x w p. (inr (now, p.0), p.1)) (λ e w p. p)
                (Triple-statement d h (retire_database now i.database))))
            (λ e w p. absurd p)
            λ x. Triple-db {R = Retired} λ before r.
              Triple-weaken (λ w p. p) (λ y w p. (before, now, (r, p.0)))
                (λ e w p. subst Retired (sym p.0) r) (Triple-statement before h _)
