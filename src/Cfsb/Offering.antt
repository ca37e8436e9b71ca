-- ===== src/Cfsb/Offering.antt =====
-- What the broker offers: the catalog and the answers of its handler.
use rdpg_boshrelease.Base.{
  String, ◌≡◌, refl, ◌⊎◌, inl, inr, eq_iff, false, ◌==◌, some, List, [], ◌∷◌, map, All,
}
use rdpg_boshrelease.World.{ServiceRow, PlanRow, Db}
use rdpg_boshrelease.World.Triple.{
  Triple, Triple-known, Triple-pure, Triple-if, Triple-weaken, Triple-step, Triple-bind,
  Triple-call, Triple-query,
}
use rdpg_boshrelease.World.Holding.{Holds}
use rdpg_boshrelease.Web.{Response, answered, served}
use rdpg_boshrelease.Web.Answering.{Triple-responding}
use rdpg_boshrelease.Instances.Scanning.{Triple-scanned}
use rdpg_boshrelease.Cfsb.Offers.{Plan, Service, Catalog, scan_plan, scan_plans, add_plans, fetch}
use rdpg_boshrelease.Cfsb.Handlers.{catalog_handler}

-- the rows that a plan and a service are read from
abbrev pub plan_row : Plan → PlanRow
plan_row p = record {
  plan_id = some p.plan_id;
  name = some p.name;
  description = some p.description;
}

abbrev pub service_row : Service → ServiceRow
service_row s = record {
  service_id = s.service_id;
  name = s.name;
  description = s.description;
  bindable = s.bindable;
}

-- Every plan of the table, and the tags.
abbrev pub HasPlans : List PlanRow → Service → Type 0
HasPlans rows s = (map plan_row s.plans ≡ rows) × (s.tags ≡ "rdpg" ∷ "postgresql" ∷ [])

-- The services of the table in its order, each with every plan.
abbrev pub IsOffer : Db → List Service → Type 0
IsOffer d services = (map service_row services ≡ d.services) × All (HasPlans d.plans) services

module _ (d : Db) (h : List String) where
  Triple-scan_plan :
      (r : PlanRow)
      → Triple (Holds d h) (scan_plan r) (λ p w. Holds d h w × (plan_row p ≡ r)) (λ e. Holds d h)
  Triple-scan_plan r = Triple-bind (Triple-scanned d h r.plan_id) λ plan_id. Triple-known λ has_id.
      Triple-bind (Triple-scanned d h r.name) λ name. Triple-known λ has_name.
        Triple-bind (Triple-scanned d h r.description) λ description.
          Triple-known λ has_description.
            Triple-pure _ λ w p. (p, rw (← has_id, ← has_name, ← has_description))

  Triple-scan_plans :
      (rows : List PlanRow)
      → Triple
          (Holds d h)
          (scan_plans rows)
          (λ ps w. Holds d h w × (map plan_row ps ≡ rows))
          (λ e. Holds d h)
  Triple-scan_plans [] = Triple-pure [] λ w p. (p, refl)
  Triple-scan_plans (r ∷ rows) = Triple-bind (Triple-scan_plan r) λ p. Triple-known λ read.
      Triple-bind (Triple-scan_plans rows)
        λ ps. Triple-known λ all_read. Triple-pure _ λ w q. (q, rw (read, all_read))

  Triple-add_plans :
      (rows : List ServiceRow)
      → Triple
          (Holds d h)
          (add_plans rows)
          (λ services w.
            Holds d h w × ((map service_row services ≡ rows) × All (HasPlans d.plans) services))
          (λ e. Holds d h)
  unfolding add_plans
  Triple-add_plans [] = Triple-pure [] λ w p. (p, (refl, tt))
  Triple-add_plans (r ∷ rows) =
      Triple-step (Triple-query {P = Holds d h} (λ w rs p. p) (λ w. w.db.plans)) (λ e w p. p.1)
        λ found.
          Triple-weaken {P' = λ w. Holds d h w × (d.plans ≡ found)}
            (λ w p. (p.0, rw p.0.0 at (p.1))) (λ a w p. p) (λ e w p. p)
            (Triple-known λ same. Triple-bind (Triple-scan_plans found) λ plans.
              Triple-known λ read. Triple-bind (Triple-add_plans rows) λ rest.
                Triple-known λ all_read.
                  Triple-pure _ λ w p. (p, (rw all_read.0, ((rw same read, refl), all_read.1))))

  Triple-fetch :
      Triple (Holds d h) fetch (λ c w. Holds d h w × IsOffer d c.services) (λ e. Holds d h)
  unfolding fetch
  Triple-fetch =
      Triple-step (Triple-call {P = Holds d h} (λ w rs p. p)) (λ e w p. p.1)
        λ u.
          Triple-step (Triple-query {P = Holds d h} (λ w rs p. p) (λ w. w.db.services))
            (λ e w p. p.1)
            λ found.
              Triple-weaken {P' = λ w. Holds d h w × (d.services ≡ found)}
                (λ w p. (p.0, rw p.0.0 at (p.1))) (λ a w p. p) (λ e w p. p)
                (Triple-known λ same.
                  Triple-bind (Triple-add_plans found)
                    λ services. Triple-pure _ λ w p. (p.0, (rw same (p.1.0), p.1.1)))

  -- the answers to each method
  abbrev pub IsCatalogAnswer : String → Response Catalog → Type 0
  IsCatalogAnswer method (served c) = (method ≡ "GET") × IsOffer d c.services
  IsCatalogAnswer method (answered code text) =
      ((method ≡ "GET") × (code ≡ 500)) ⊎ (((method == "GET") ≡ false) × (code ≡ 405))

  -- The handler of the catalog answers every request, whatever fails, and changes neither the
  -- database nor the locks. It serves a catalog to GET alone: the services of the table in its
  -- order, each with the plans of the table in their order, and two tags. Otherwise the status is
  -- 500 for GET, and 405 for any other method.
  pub catalog_handler-CatalogAnswer :
      (method : String)
      → Triple
          (Holds d h)
          (catalog_handler method)
          (λ r w. Holds d h w × IsCatalogAnswer method r)
          (λ e w. ⊥)
  unfolding catalog_handler
  catalog_handler-CatalogAnswer method =
      Triple-if (method == "GET") _ _
        (λ get.
          let is_get : method ≡ "GET" = (eq_iff method "GET").0 get in
          Triple-responding _ _ Triple-fetch (λ e w p. (p, inl (is_get, refl)))
            λ c. Triple-pure _ λ w p. (p.0, (is_get, p.1)))
        (λ other. Triple-pure _ λ w p. (p, inr (other, refl)))
