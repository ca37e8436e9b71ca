-- ===== src/Admin/Listing.antt =====
-- The databases that the administration API lists.
use rdpg_boshrelease.Base.{String, ◌≡◌, refl, List, [], ◌∷◌, map, select}
use rdpg_boshrelease.World.{InstanceRow, Db, Exec, pure, call, query, ◌>>=◌, ◌>>◌}
use rdpg_boshrelease.World.Triple.{
  Triple, Triple-known, Triple-pure, Triple-weaken, Triple-step, Triple-bind, Triple-call,
  Triple-query,
}
use rdpg_boshrelease.World.Holding.{Holds}
use rdpg_boshrelease.Instances.{
  Instance, scan_database, scan_assigned, scan_each, is_available, all, available,
}
use rdpg_boshrelease.Instances.Scanning.{Triple-scan_assigned}

abbrev database_name : Instance → String
database_name i = i.database

abbrev row_name : InstanceRow → String
row_name r = r.dbname

-- The databases of some rows, in their order.
abbrev pub Lists : List InstanceRow → List Instance → Type 0
Lists rows is = map database_name is ≡ map row_name rows

module _ (d : Db) (h : List String) where
  Triple-scan_each_assigned :
      (rows : List InstanceRow)
      → Triple
          (Holds d h)
          (scan_each scan_assigned rows)
          (λ is w. Holds d h w × Lists rows is)
          (λ e. Holds d h)
  Triple-scan_each_assigned [] = Triple-pure [] λ w p. (p, refl)
  Triple-scan_each_assigned (r ∷ rows) = Triple-bind (Triple-scan_assigned d h r) λ i.
      Triple-known λ named.
        Triple-bind (Triple-scan_each_assigned rows)
          λ is. Triple-pure _ λ w p. (p.0, rw (named.database, p.1))

  Triple-scan_each_database :
      (rows : List InstanceRow)
      → Triple
          (Holds d h)
          (scan_each (λ r. pure (scan_database r)) rows)
          (λ is w. Holds d h w × Lists rows is)
          (λ e. Holds d h)
  Triple-scan_each_database [] = Triple-pure [] λ w p. (p, refl)
  Triple-scan_each_database (r ∷ rows) =
      Triple-bind (Triple-scan_each_database rows)
        λ is. Triple-pure (scan_database r ∷ is) λ w p. (p.0, rw p.1)

  -- a query for rows, and their scan
  Triple-rows :
      (f : Db → List InstanceRow) (scan : List InstanceRow → Exec (List Instance))
      → ((rows : List InstanceRow)
          → Triple (Holds d h) (scan rows) (λ is w. Holds d h w × Lists rows is) (λ e. Holds d h))
      → Triple
          (Holds d h)
          (do call; rows ← query (λ w. f w.db); scan rows)
          (λ is w. Holds d h w × Lists (f d) is)
          (λ e. Holds d h)
  Triple-rows f scan scans =
      Triple-step (Triple-call {P = Holds d h} (λ w rs p. p)) (λ e w p. p.1)
        λ u.
          Triple-step (Triple-query {P = Holds d h} (λ w rs p. p) (λ w. f w.db)) (λ e w p. p.1)
            λ rows.
              Triple-weaken {P' = λ w. Holds d h w × (f d ≡ rows)} (λ w p. (p.0, rw p.0.0 at (p.1)))
                (λ a w p. p) (λ e w p. p)
                (Triple-known
                  λ same. Triple-weaken (λ w p. p) (λ is w p. rw same p) (λ e w p. p) (scans rows))

  pub Triple-all :
      Triple (Holds d h) all (λ is w. Holds d h w × Lists d.instances is) (λ e. Holds d h)
  unfolding all
  Triple-all = Triple-rows (λ d. d.instances) _ Triple-scan_each_assigned

  pub Triple-available :
      Triple
        (Holds d h)
        available
        (λ is w. Holds d h w × Lists (select is_available d.instances) is)
        (λ e. Holds d h)
  unfolding available
  Triple-available = Triple-rows (λ d. select is_available d.instances) _ Triple-scan_each_database
