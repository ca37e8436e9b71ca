-- ===== src/Cfsb/Handlers.antt =====
-- The handlers of cfsb/api.go. The variables of the route and the decoded body are arguments.
use rdpg_boshrelease.Base.{ℕ, String, ◌<>◌, ◌==◌, Option, none, some, if◌then◌else◌}
use rdpg_boshrelease.World.{Error, Exec, pure}
use rdpg_boshrelease.Web.{Response, answered, served, Body, decoded, undecoded, failed, responding}
use rdpg_boshrelease.Instances.{Instance, provision, decommission, find_by_instance_id}
use rdpg_boshrelease.Cfsb.Bindings.{
  Credentials, new_service_instance, create_binding, remove_binding,
}
use rdpg_boshrelease.Cfsb.Offers.{Catalog, fetch}

-- `CatalogHandler`
unfoldable pub catalog_handler : String → Exec (Response Catalog)
catalog_handler method =
    if method == "GET"
    then responding fetch failed (λ c. pure (served c))
    else pure (answered 405 "Allowed Methods: GET")

-- `instanceRequest`
pub record InstanceRequest : Type 0 where
  pub service_id : String
  pub plan : String
  pub organization_id : String
  pub space_id : String

abbrev pub provision_new : ℕ → Instance × Option Error → Exec (Response (Unit {0}))
provision_new fuel (i, some e) = pure (failed e)
provision_new fuel (i, none) =
    responding (provision fuel i) failed
      (λ j. pure (answered 200 ("Provisioned Instance " <> j.instance_id)))

abbrev pub put_instance : ℕ → String → Body InstanceRequest → Exec (Response (Unit {0}))
put_instance fuel id (undecoded e) = pure (answered 500 e)
put_instance fuel id (decoded r) =
    provision_new fuel (new_service_instance id r.service_id r.plan r.organization_id r.space_id)

abbrev pub delete_instance : String → String → Exec (Response (Unit {0}))
delete_instance cluster id =
    responding (find_by_instance_id id)
      (λ e. answered 500 ("Could not find instance " <> id <> ", perhaps it was already deleted?"))
      (λ i.
        responding (decommission cluster i)
          (λ e. answered 500 ("There was an error decommissioning instance " <> i.instance_id))
          (λ u. pure (answered 200 ("Successfully Deprovisioned Instance " <> i.instance_id))))

-- `InstanceHandler`, with the cluster of this process
unfoldable pub instance_handler :
    ℕ → String → String → String → Body InstanceRequest → Exec (Response (Unit {0}))
instance_handler fuel cluster method id body =
    if method == "PUT"
    then put_instance fuel id body
    else if method == "DELETE"
    then delete_instance cluster id
    else pure (answered 405 "Allowed Methods: PUT, DELETE")

-- `BindingHandler`
unfoldable pub binding_handler : String → String → String → Exec (Response Credentials)
binding_handler method instance_id binding_id =
    if method == "PUT"
    then responding (create_binding (record { binding_id = binding_id; instance_id = instance_id }))
        failed (λ c. pure (served c))
    else if method == "DELETE"
    then responding (remove_binding binding_id)
        (λ e. answered 500 "Binding does not exist or has already been deleted.")
        (λ u. pure (answered 200 "Binding Removed"))
    else pure (answered 405 "Allowed Methods: PUT, DELETE")
