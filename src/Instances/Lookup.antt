-- ===== src/Instances/Lookup.antt =====
-- What `FindByDatabase` finds, and `Reconcile`, which inserts only what it does not find.
use rdpg_boshrelease.Base.{
  ℕ, String, ◌≡◌, refl, sym, subst, Bool, false, ◌==◌, Option, none, some, List, ◌∷◌, first, any,
  member, ◌⊎◌, inl, inr, first-none,
}
use rdpg_boshrelease.World.{
  World, InstanceRow, Db, Error, no_rows, message, Result, ok, err, panics, hangs, ◌>>=◌,
}
use rdpg_boshrelease.World.Triple.{
  Post, Triple, Triple-pure, Triple-raise, Triple-weaken, Triple-step, Triple-bind, Triple-attempt,
  Triple-call, Triple-gets, Triple-get_row, Triple-logged, Triple-given,
}
use rdpg_boshrelease.World.Holding.{Holds, Triple-lock, Triple-unlock, Triple-statement}
use rdpg_boshrelease.Instances.Model.{Instance, lock_key, lock_instance, unlock_instance}
use rdpg_boshrelease.Instances.Find.{scan_database, found_database, find_by_database}
use rdpg_boshrelease.Instances.Assign.{insert_row, assign_row, fresh_row, insert_unknown, reconcile}

abbrev pub has_name : String → Db → Bool
has_name n d = any (λ r. r.dbname == n) d.instances

-- The row that a name finds, or none if no row has the name.
abbrev pub Found : Db → String → Option Instance → Type 0
Found d n none = has_name n d ≡ false
Found d n (some i) =
    (r : InstanceRow) × (first (λ r. r.dbname == n) d.instances ≡ some r) × (i ≡ scan_database r)

pub Triple-find_by_database :
    (d : Db) (h : List String) (n : String)
    → Triple (Holds d h) (find_by_database n) (λ o w. Holds d h w × Found d n o) (λ e. Holds d h)
unfolding find_by_database
Triple-find_by_database d h n =
    Triple-step (Triple-call (λ w rs p. p)) (λ e w p. p.1)
      λ u.
        Triple-bind
          (Triple-attempt {F = λ e. Holds d h} (
            Triple-weaken (λ w p. p) (λ r w p. (p.0, rw p.0.0 at (p.1)))
              (λ e w p. (p.0, λ q. rw p.0.0 at (p.1 q)))
              (Triple-get_row (λ w rs p. p) (λ w. first (λ r. r.dbname == n) w.db.instances))))
          go
  where
    go :
        (r : Result InstanceRow)
        → Triple
            (λ w.
              Post
                (λ r w. Holds d h w × (first (λ r. r.dbname == n) d.instances ≡ some r))
                (λ e w. Holds d h w × (e ≡ no_rows → first (λ r. r.dbname == n) d.instances ≡ none))
                r
                w)
            (found_database r)
            (λ o w. Holds d h w × Found d n o)
            (λ e. Holds d h)
    go (ok r) = Triple-pure _ λ w p. (p.0, (r, p.1, refl))
    go (err no_rows) = Triple-pure _ λ w p. (p.0, first-none _ d.instances (p.1 refl))
    go (err (message e)) = Triple-raise _ λ w p. p.0
    go panics = record { at = λ w p. absurd p }
    go hangs = record { at = λ w p. absurd p }

module _ (d : Db) (h : List String) (i : Instance) where
  -- The database is as it was, or it has one row more, for a name that it did not have.
  abbrev pub Reconciled : Db → Type 0
  Reconciled d' =
      (d' ≡ d)
      ⊎ ((now : ℕ) × (has_name i.database d ≡ false)
          × (d' ≡ insert_row (assign_row i (fresh_row now i)) d))

  Triple-insert_unknown :
      (o : Option Instance)
      → Triple
          (λ w. Holds d h w × Found d i.database o)
          (insert_unknown i o)
          (λ u w. Reconciled w.db × (w.held ≡ h))
          (λ e w. Reconciled w.db × (w.held ≡ h))
  Triple-insert_unknown (some known) = Triple-pure tt λ w p. (inl p.0.0, p.0.1)
  Triple-insert_unknown none = Triple-given λ w p.
      Triple-bind
        (Triple-weaken (λ v q. q.0) (λ a v q. q.0) (λ e v q. q)
          (Triple-gets {P = Holds d h} {E = λ e v. Reconciled v.db × (v.held ≡ h)} (λ v. v.now)))
        λ now.
          Triple-weaken (λ v q. q) (λ u v q. (inr (now, p.1, q.0), q.1)) (λ e v q. (inl q.0, q.1))
            (Triple-statement d h (insert_row (assign_row i (fresh_row now i))))

-- A function's effect on the database, from whatever database it starts with.
pub Triple-db :
    {A : Type 0} {R : Db → Type 0} {h : List String} {m : World → Result A × World}
    {Q : A → World → Type 0} {E : Error → World → Type 0}
    → ((d : Db) → R d → Triple (Holds d h) m Q E)
    → Triple (λ w. R w.db × (w.held ≡ h)) m Q E
Triple-db t = record { at = λ w p. (t w.db p.0).at w (refl, p.1) }

-- `Reconcile` returns, where the process does not hold the database's lock, and holds no lock more
-- then, whether it returns an error or not. The table of instances is as it was or has one row
-- more, for a database that it did not have.
pub reconcile-Reconciled :
    (i : Instance) (d : Db) (h : List String)
    → member (lock_key i) h ≡ false
    → Triple
        (Holds d h)
        (reconcile i)
        (λ u w. Reconciled d h i w.db × (w.held ≡ h))
        (λ e w. Reconciled d h i w.db × (w.held ≡ h))
unfolding reconcile lock_instance unlock_instance
reconcile-Reconciled i d h free =
    Triple-step (Triple-call (λ w rs p. p)) (λ e w p. (inl p.1.0, p.1.1))
      λ u.
        Triple-step (Triple-lock d h (lock_key i) free) (λ e w p. (inl p.0, p.1))
          λ v.
            Triple-step (Triple-logged {F = λ e w. ⊥} (λ e w p. p) body) (λ e w p. absurd p)
              λ x. Triple-db {R = Reconciled d h i} λ d' r.
                Triple-weaken (λ w p. p) (λ y w p. (subst (Reconciled d h i) (sym p.0) r, p.1))
                  (λ e w p. (subst (Reconciled d h i) (sym p.0) r, p.1))
                  (Triple-unlock d' h (lock_key i) free)
  where
    body :
        Triple
          (Holds d (lock_key i ∷ h))
          (do known ← find_by_database i.database; insert_unknown i known)
          (λ u w. Reconciled d h i w.db × (w.held ≡ lock_key i ∷ h))
          (λ e w. Reconciled d h i w.db × (w.held ≡ lock_key i ∷ h))
    body =
        Triple-step (Triple-find_by_database d (lock_key i ∷ h) i.database)
          (λ e w p. (inl p.0, p.1)) λ o. Triple-insert_unknown d (lock_key i ∷ h) i o
