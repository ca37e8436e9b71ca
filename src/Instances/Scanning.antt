-- ===== src/Instances/Scanning.antt =====
-- Reading rows: a NULL is an error, and what is read is the row's.
use rdpg_boshrelease.Base.{String, ◌≡◌, refl, Option, none, some, List, first, to_lower}
use rdpg_boshrelease.World.{InstanceRow, Db}
use rdpg_boshrelease.World.Triple.{
  Triple, Triple-known, Triple-pure, Triple-raise, Triple-weaken, Triple-step, Triple-bind,
  Triple-call, Triple-get_row,
}
use rdpg_boshrelease.World.Holding.{Holds}
use rdpg_boshrelease.Instances.Model.{Instance}
use rdpg_boshrelease.Instances.Find.{scanned, column_is, scan_assigned, find_by_instance_id}

-- Every field is that of the row, of which no column for an id is NULL.
pub record IsReadFrom (r : InstanceRow) (i : Instance) : Type 0 where
  pub cluster : i.cluster_id ≡ r.cluster_id
  pub instance_id : r.instance_id ≡ some i.instance_id
  pub service : r.service_id ≡ some i.service_id
  pub plan : r.plan_id ≡ some i.plan_id
  pub organization : r.organization_id ≡ some i.organization_id
  pub space : r.space_id ≡ some i.space_id
  pub database : i.database ≡ r.dbname
  pub user : i.user ≡ r.dbuser
  pub pass : i.pass ≡ r.dbpass

module _ (d : Db) (h : List String) where
  pub Triple-scanned :
      (o : Option String)
      → Triple (Holds d h) (scanned o) (λ s w. Holds d h w × (o ≡ some s)) (λ e. Holds d h)
  Triple-scanned none = Triple-raise _ λ w p. p
  Triple-scanned (some s) = Triple-pure s λ w p. (p, refl)

  pub Triple-scan_assigned :
      (r : InstanceRow)
      → Triple (Holds d h) (scan_assigned r) (λ i w. Holds d h w × IsReadFrom r i) (λ e. Holds d h)
  Triple-scan_assigned r = Triple-bind (Triple-scanned r.instance_id) λ instance_id.
      Triple-known λ has_instance. Triple-bind (Triple-scanned r.service_id) λ service_id.
        Triple-known λ has_service. Triple-bind (Triple-scanned r.plan_id) λ plan_id.
          Triple-known λ has_plan. Triple-bind (Triple-scanned r.organization_id) λ organization_id.
            Triple-known λ has_organization. Triple-bind (Triple-scanned r.space_id) λ space_id.
              Triple-known λ has_space. Triple-pure _ λ w p. (
                p,
                record {
                  cluster = refl;
                  instance_id = has_instance;
                  service = has_service;
                  plan = has_plan;
                  organization = has_organization;
                  space = has_space;
                  database = refl;
                  user = refl;
                  pass = refl;
                },
              )

  -- The row that `FindByInstanceID` reads.
  abbrev pub IsAssigned : String → Instance → Type 0
  IsAssigned id i =
      (r : InstanceRow) × ((first (λ r. column_is r.instance_id (to_lower id)) d.instances ≡ some r)
        × IsReadFrom r i)

  pub Triple-find_by_instance_id :
      (id : String)
      → Triple
          (Holds d h)
          (find_by_instance_id id)
          (λ i w. Holds d h w × IsAssigned id i)
          (λ e. Holds d h)
  unfolding find_by_instance_id
  Triple-find_by_instance_id id =
      Triple-step (Triple-call {P = Holds d h} (λ w rs p. p)) (λ e w p. p.1)
        λ u.
          Triple-step
            (Triple-get_row {P = Holds d h} (λ w rs p. p)
              (λ w. first (λ r. column_is r.instance_id (to_lower id)) w.db.instances))
            (λ e w p. p.0)
            λ r.
              Triple-weaken
                {P' = λ w.
                  Holds d h w
                  × (first (λ r. column_is r.instance_id (to_lower id)) d.instances ≡ some r)}
                (λ w p. (p.0, rw p.0.0 at (p.1))) (λ a w p. p) (λ e w p. p)
                (Triple-known λ found.
                  Triple-weaken (λ w p. p) (λ i w p. (p.0, (r, (found, p.1)))) (λ e w p. p)
                    (Triple-scan_assigned r))
