-- ===== src/Admin/Databases.antt =====
-- admin/databases.go. The variables of the route and the decoded body are arguments.
use rdpg_boshrelease.Base.{ℕ, String, ◌<>◌, ◌==◌, Option, none, some, List, if◌then◌else◌}
use rdpg_boshrelease.World.{Action, Exec, pure, panic, call, ◌>>◌}
use rdpg_boshrelease.Pg.{text}
use rdpg_boshrelease.Web.{Response, answered, served, Body, decoded, undecoded, failed, responding}
use rdpg_boshrelease.Instances.{
  Instance, all, available, register, assign, decommission, find_by_database,
}

abbrev pub invalid_action : String → Exec (Response (List Instance))
invalid_action action = pure (answered 400 ("Invalid Action " <> action))

-- an action on the instance of the body
abbrev pub with_body :
    Body Instance → (Instance → Exec (Response (List Instance))) → Exec (Response (List Instance))
with_body (undecoded e) act = pure (answered 500 e)
with_body (decoded i) act = act i

abbrev pub done_or_failed : Action → Exec (Response (List Instance))
done_or_failed m = responding m failed (λ u. pure (answered 200 "{}"))

abbrev pub get_databases : String → Exec (Response (List Instance))
get_databases action =
    if action == ""
    then responding all failed (λ is. pure (served is))
    else if action == "available"
    then responding available failed (λ is. pure (served is))
    else invalid_action action

abbrev pub post_databases : String → Body Instance → Exec (Response (List Instance))
post_databases action body =
    with_body body
      λ i. if action == "register" then done_or_failed (register i) else invalid_action action

abbrev pub put_databases : ℕ → String → String → Body Instance → Exec (Response (List Instance))
put_databases fuel cluster action body = with_body body λ i.
    if action == "assign" then done_or_failed (assign fuel cluster i) else invalid_action action

-- `i.Decommission()` of what `FindByDatabase` returns: of nil it connects, and then reads a field.
abbrev pub decommission_known : String → Option Instance → Action
decommission_known cluster none = do call; panic
decommission_known cluster (some i) = decommission cluster i

abbrev pub decommission_answered : String → Option Instance → Exec (Response (List Instance))
decommission_answered cluster o =
    responding (decommission_known cluster o)
      (λ e. answered 500 ("There was an error decommissioning the database (" <> text e <> ")"))
      (λ u. pure (answered 200 ""))

-- Nothing is written after a success: the status is 200, and the body is empty.
abbrev pub delete_databases : String → String → String → Exec (Response (List Instance))
delete_databases cluster action database =
    if action == "decommission"
    then responding (find_by_database database) failed (decommission_answered cluster)
    else invalid_action action

-- `DatabasesHandler`, in the cluster of this process
unfoldable pub databases_handler :
    ℕ → String → String → String → String → Body Instance → Exec (Response (List Instance))
databases_handler fuel cluster method action database body =
    if method == "GET"
    then get_databases action
    else if method == "POST"
    then post_databases action body
    else if method == "PUT"
    then put_databases fuel cluster action body
    else if method == "DELETE"
    then delete_databases cluster action database
    else pure (answered 405 ("Method not allowed " <> method))
