-- ===== src/Tests/Brokers.antt =====
-- Runs of the service broker (package cfsb).
use rdpg_boshrelease.Base.{◌≡◌, refl, String, none, some, List, [], ◌∷◌, to_lower, word_chars}
use rdpg_boshrelease.World.{
  empty_db, message, empty_world, World, Db, InstanceRow, ok, panics, get_row, query, call,
}
use rdpg_boshrelease.World.Triple.{Post}
use rdpg_boshrelease.World.Holding.{Holds}
use rdpg_boshrelease.Cfsb.{
  Binding, Credentials, insert_binding, create_credentials, new_service_instance, binding_handler,
}
use rdpg_boshrelease.Instances.{Instance, find_by_instance_id}
use rdpg_boshrelease.Cfsb.Attached.{binding_handler-panics}
use rdpg_boshrelease.Cfsb.Storing.{create_credentials-never}

abbrev binding : Binding
binding = record { binding_id = "B1"; instance_id = "i1" }

abbrev credentials : Credentials
credentials = record {
  binding_id = "B1";
  instance_id = "i1";
  uri = "";
  dsn = "";
  jdbc_uri = "";
  host = "10.0.0.1";
  port = "5432";
  username = "u1";
  password = "p1";
  database = "d1";
}

abbrev bound : World
bound = record empty_world { db = insert_binding binding empty_db }

create_credentials-never_example :
    Post
      (λ (u : Credentials). Holds (insert_binding binding empty_db) [])
      (λ e. Holds (insert_binding binding empty_db) [])
      (create_credentials credentials bound).0
      (create_credentials credentials bound).1
create_credentials-never_example =
    (create_credentials-never binding credentials empty_db [] refl refl).at bound (refl, refl)

abbrev bound_row : InstanceRow
bound_row = record {
  id = 1;
  cluster_id = "rdpgsc1";
  instance_id = some "i1";
  service_id = some "s1";
  plan_id = some "p1";
  organization_id = some "o1";
  space_id = some "sp1";
  dbname = "d1";
  dbuser = "u1";
  dbpass = "p1";
  created_at = 0;
  effective_at = some 0;
  ineffective_at = none;
  decommissioned_at = none;
}

abbrev assigned_db : Db
assigned_db = record empty_db { instances = bound_row ∷ [] }

abbrev masters : String → List String
masters name = "10.0.0.5" ∷ []

abbrev listed : World
listed = record empty_world { db = assigned_db; catalog = masters }

abbrev unlisted : World
unlisted = record empty_world { db = assigned_db }

abbrev owner_of_i1 : Instance
owner_of_i1 = record {
  cluster_id = "rdpgsc1";
  instance_id = "i1";
  service_id = "s1";
  plan_id = "p1";
  organization_id = "o1";
  space_id = "sp1";
  database = "d1";
  user = "u1";
  pass = "p1";
}

i1-found : find_by_instance_id "i1" unlisted ≡ (ok owner_of_i1, unlisted)
unfolding find_by_instance_id get_row query call to_lower
i1-found = refl

binding_handler-panics_example : (binding_handler "PUT" "i1" "B1" unlisted).0 ≡ panics
binding_handler-panics_example =
    binding_handler-panics binding owner_of_i1 unlisted refl i1-found refl

-- The names of a new service instance are in lower case, without the dashes of its id.
new_service_instance_named : (new_service_instance "AB-12" "s" "p" "o" "sp").0.database ≡ "dab12"
unfolding new_service_instance to_lower word_chars
new_service_instance_named = refl

-- What is missing is an error.
new_service_instance_missing :
    (new_service_instance "AB-12" "s" "" "o" "sp").1 ≡ some (message "Plan ID is required.")
unfolding new_service_instance to_lower word_chars
new_service_instance_missing = refl
