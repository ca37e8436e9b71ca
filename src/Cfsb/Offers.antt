-- ===== src/Cfsb/Offers.antt =====
-- cfsb/catalog.go, with the structures of cfsb/services.go and cfsb/plans.go.
use rdpg_boshrelease.Base.{String, Bool, List, [], ◌∷◌}
use rdpg_boshrelease.World.{ServiceRow, PlanRow, Exec, pure, call, query, ◌>>=◌, ◌>>◌}
use rdpg_boshrelease.Instances.{scanned}

-- `Plan`; its details are never filled.
pub record Plan : Type 0 where
  pub plan_id : String
  pub name : String
  pub description : String

-- `Service`; its details are never filled.
pub record Service : Type 0 where
  pub service_id : String
  pub name : String
  pub description : String
  pub bindable : Bool
  pub tags : List String
  pub plans : List Plan

-- `Catalog`
pub record Catalog : Type 0 where
  pub services : List Service

abbrev pub scan_plan : PlanRow → Exec Plan
scan_plan r = do
  plan_id ← scanned r.plan_id
  name ← scanned r.name
  description ← scanned r.description
  pure (record { plan_id = plan_id; name = name; description = description })

abbrev pub scan_plans : List PlanRow → Exec (List Plan)
scan_plans [] = pure []
scan_plans (r ∷ rs) = do p ← scan_plan r; rest ← scan_plans rs; pure (p ∷ rest)

abbrev pub offered : ServiceRow → List Plan → Service
offered r plans = record {
  service_id = r.service_id;
  name = r.name;
  description = r.description;
  bindable = r.bindable;
  tags = "rdpg" ∷ "postgresql" ∷ [];
  plans = plans;
}

-- Each service is given all plans.
unfoldable pub add_plans : List ServiceRow → Exec (List Service)
add_plans [] = pure []
add_plans (r ∷ rs) = do
  rows ← query (λ w. w.db.plans)
  plans ← scan_plans rows
  rest ← add_plans rs
  pure (offered r plans ∷ rest)

-- `c.Fetch()`
unfoldable pub fetch : Exec Catalog
fetch = do
  call
  rows ← query (λ w. w.db.services)
  services ← add_plans rows
  pure (record { services = services })
