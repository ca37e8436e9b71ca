-- ===== src/Tests/Requests.antt =====
-- Requests to the service broker and to the administration API, and a new UUID.
use rdpg_boshrelease.Base.{
  ◌+◌, ◌≡◌, refl, arith, true, Option, none, some, [], ◌∷◌, if◌then◌else◌, ◌⊎◌,
}
use rdpg_boshrelease.World.{World, Db, InstanceRow, Exec, pure, panics, empty_db, empty_world}
use rdpg_boshrelease.World.Triple.{Post}
use rdpg_boshrelease.World.Holding.{Holds}
use rdpg_boshrelease.Uuid.{UuidBytes, new_uuid, uuid_text}
use rdpg_boshrelease.Uuid.Version.{codes, matches, new_uuid-matches}
use rdpg_boshrelease.Web.{
  Bytes, Response, answered, Body, decoded, undecoded, http_auth, set_basic_auth, is_authorized,
  authorization_failed,
}
use rdpg_boshrelease.Web.Admitting.{IsOwners, IsDenied, http_auth-set_basic_auth, http_auth-Admits}
use rdpg_boshrelease.Instances.{Instance}
use rdpg_boshrelease.Cfsb.{InstanceRequest, catalog_handler, instance_handler}
use rdpg_boshrelease.Cfsb.Offering.{IsCatalogAnswer, catalog_handler-CatalogAnswer}
use rdpg_boshrelease.Cfsb.Serving.{IsInstanceAnswer, instance_handler-InstanceAnswer}
use rdpg_boshrelease.Admin.{databases_handler}
use rdpg_boshrelease.Admin.Managing.{
  IsDatabasesAnswer, databases_handler-DatabasesAnswer, databases_handler-panics,
}

abbrev owner : Bytes × Bytes
owner = (codes "cfadmin", codes "pa:ss")

abbrev handled : Exec (Response (Unit {0}))
handled = pure (answered 200 "handled")

http_auth-set_basic_auth_example :
    http_auth owner handled (some (set_basic_auth (codes "cf") (codes "pa:ss")))
    ≡ (if is_authorized owner (codes "cf") (codes "pa:ss") then handled else authorization_failed)
http_auth-set_basic_auth_example =
    http_auth-set_basic_auth owner handled (codes "cf") (codes "pa:ss") (refl, (refl, tt))
      (omega arith) (omega arith)

abbrev stranger : Option Bytes
stranger = some (codes "Basic eDp5")

http_auth-Admits_example :
    (IsOwners owner handled stranger × (http_auth owner handled stranger ≡ handled))
    ⊎ IsDenied owner handled (http_auth owner handled stranger)
http_auth-Admits_example = http_auth-Admits owner handled stranger

abbrev random : UuidBytes
random = record {
  b0 = 0;
  b1 = 17;
  b2 = 34;
  b3 = 51;
  b4 = 68;
  b5 = 85;
  b6 = 255;
  b7 = 119;
  b8 = 255;
  b9 = 153;
  b10 = 170;
  b11 = 187;
  b12 = 204;
  b13 = 221;
  b14 = 238;
  b15 = 255;
}

new_uuid-matches_example :
    matches (codes "xxxxxxxx-xxxx-4xxx-yxxx-xxxxxxxxxxxx") (uuid_text (new_uuid random)) ≡ true
new_uuid-matches_example = new_uuid-matches random (omega arith)

new_uuid_text : uuid_text (new_uuid random) ≡ codes "00112233-4455-4f77-bf99-aabbccddeeff"
unfolding uuid_text new_uuid
new_uuid_text = refl

abbrev shop_db : Db
shop_db = record empty_db {
  services = record { service_id = "s1"; name = "rdpg"; description = "d"; bindable = true } ∷ [];
  plans = record { plan_id = some "p1"; name = some "shared"; description = some "d" } ∷ [];
}

abbrev shop : World
shop = record empty_world { db = shop_db }

catalog_handler-CatalogAnswer_example :
    Post
      (λ r w. Holds shop_db [] w × IsCatalogAnswer shop_db [] "GET" r)
      (λ e w. ⊥)
      (catalog_handler "GET" shop).0
      (catalog_handler "GET" shop).1
catalog_handler-CatalogAnswer_example =
    (catalog_handler-CatalogAnswer shop_db [] "GET").at shop (refl, refl)

abbrev free_row : InstanceRow
free_row = record {
  id = 1;
  cluster_id = "rdpgsc1";
  instance_id = none;
  service_id = none;
  plan_id = none;
  organization_id = none;
  space_id = none;
  dbname = "d1";
  dbuser = "u1";
  dbpass = "p1";
  created_at = 0;
  effective_at = some 0;
  ineffective_at = none;
  decommissioned_at = none;
}

abbrev pool : Db
pool = record empty_db { instances = free_row ∷ [] }

abbrev pooled : World
pooled = record empty_world { db = pool }

abbrev request : Body InstanceRequest
request =
    decoded (record { service_id = "s1"; plan = "p1"; organization_id = "o1"; space_id = "sp1" })

instance_handler-InstanceAnswer_example :
    Post
      (IsInstanceAnswer 1 "rdpgmc" "I-1" pool "PUT" request)
      (λ e w. ⊥)
      (instance_handler (1 + 3) "rdpgmc" "PUT" "I-1" request pooled).0
      (instance_handler (1 + 3) "rdpgmc" "PUT" "I-1" request pooled).1
instance_handler-InstanceAnswer_example =
    (instance_handler-InstanceAnswer 1 "rdpgmc" "I-1" pool "PUT" request).at pooled
      ((refl, refl), omega arith)

abbrev assigned : Body Instance
assigned = decoded (record {
  cluster_id = "rdpgsc1";
  instance_id = "i1";
  service_id = "s1";
  plan_id = "p1";
  organization_id = "o1";
  space_id = "sp1";
  database = "d1";
  user = "u1";
  pass = "p1";
})

databases_handler-DatabasesAnswer_example :
    Post
      (IsDatabasesAnswer 1 "rdpgsc1" "assign" pool [] "PUT" assigned)
      (λ e w. ⊥)
      (databases_handler 1 "rdpgsc1" "PUT" "assign" "" assigned pooled).0
      (databases_handler 1 "rdpgsc1" "PUT" "assign" "" assigned pooled).1
databases_handler-DatabasesAnswer_example =
    (databases_handler-DatabasesAnswer 1 "rdpgsc1" "assign" pool "PUT" "" assigned [] refl).at
      pooled (((refl, refl), omega arith), refl)

databases_handler-panics_example :
    (databases_handler 1 "rdpgsc1" "DELETE" "decommission" "d2"
      (undecoded "EOF")
      (record pooled { replies = [] })).0
    ≡ panics
databases_handler-panics_example =
    databases_handler-panics 1 "rdpgsc1" "d2" (undecoded "EOF") pooled refl
