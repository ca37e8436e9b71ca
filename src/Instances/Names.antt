-- ===== src/Instances/Names.antt =====
-- The names of the databases stay distinct under `Reconcile`.
use rdpg_boshrelease.Base.{
  String, ◌≡◌, refl, sym, subst, false, ◌==◌, List, [], ◌∷◌, ◌++◌, any, any-append, eq_iff, arith,
  inl, inr, member,
}
use rdpg_boshrelease.World.{InstanceRow, Db}
use rdpg_boshrelease.World.Triple.{Triple, Triple-weaken}
use rdpg_boshrelease.World.Holding.{Holds}
use rdpg_boshrelease.Instances.Model.{Instance, lock_key}
use rdpg_boshrelease.Instances.Assign.{reconcile}
use rdpg_boshrelease.Instances.Lookup.{Reconciled, reconcile-Reconciled}

-- No two rows have the same database.
abbrev pub Distinct : List InstanceRow → Type 0
Distinct [] = Unit {0}
Distinct (x ∷ xs) = (any (λ r. r.dbname == x.dbname) xs ≡ false) × Distinct xs

pub Distinct-append :
    (xs : List InstanceRow) (y : InstanceRow)
    → any (λ r. r.dbname == y.dbname) xs ≡ false
    → Distinct xs
    → Distinct (xs ++ (y ∷ []))
Distinct-append [] y new old = (refl, tt)
Distinct-append (x ∷ xs) y new old =
    let apart : (y.dbname == x.dbname) ≡ false =
      ground (arith, eq_iff x.dbname y.dbname, eq_iff y.dbname x.dbname) in
    (rw (any-append, old.0, apart), Distinct-append xs y (ground arith) old.1)

-- If the names of the databases in the table are distinct, they are so after `Reconcile`, whether
-- it returns an error or not, where the process does not hold the database's lock.
pub reconcile-Distinct :
    (i : Instance) (d : Db) (h : List String)
    → member (lock_key i) h ≡ false
    → Distinct d.instances
    → Triple
        (Holds d h)
        (reconcile i)
        (λ u w. Distinct w.db.instances)
        (λ e w. Distinct w.db.instances)
reconcile-Distinct i d h free distinct =
    Triple-weaken (λ w p. p) (λ u w p. kept w.db p.0) (λ e w p. kept w.db p.0)
      (reconcile-Reconciled i d h free)
  where
    kept : (d' : Db) → Reconciled d h i d' → Distinct d'.instances
    kept d' (inl e) = subst (λ x. Distinct x.instances) (sym e) distinct
    kept d' (inr (now, absent, e)) =
        subst (λ x. Distinct x.instances) (sym e) (Distinct-append d.instances _ absent distinct)
