-- ===== src/Admin/Checks.antt =====
-- admin/health.go and admin/service.go.
use rdpg_boshrelease.Base.{ℕ, String, ◌<>◌, ◌==◌, Option, none, some, if◌then◌else◌}
use rdpg_boshrelease.World.{
  Error, Result, ok, err, panics, hangs, Exec, pure, panic, hang, attempt, call, ◌>>=◌, ◌>>◌,
}
use rdpg_boshrelease.Pg.{Pg, new_pg, set, connect, text}
use rdpg_boshrelease.Web.{Response, answered}
use rdpg_boshrelease.Services.{new_service, configure}

-- the status and the error of a check by a connection and a query
abbrev pub checked : Result (Unit {0}) → Exec (ℕ × Option Error)
checked (ok u) = pure (200, none)
checked (err e) = pure (500, some e)
checked panics = panic
checked hangs = hang

abbrev pub check_port : Pg → String → Exec (ℕ × Option Error)
check_port p port = do r ← attempt (do connect (set "port" port p).0; call); checked r

-- `Check(check)`: an unknown check is status 500 and no error.
unfoldable pub check : String → String → String → Exec (ℕ × Option Error)
check pb_port pg_port name =
    let p = new_pg "127.0.0.1" pb_port "health" "health" "check" in
    if name == "ha_pb_pg"
    then check_port p "5432"
    else if name == "pb"
    then check_port p pb_port
    else if name == "pg"
    then check_port p pg_port
    else pure (500, none)

abbrev pub health_answer : String → ℕ × Option Error → Response (Unit {0})
health_answer name (code, some e) = answered code (text e)
health_answer name (code, none) = answered code (name <> " ok")

-- `HealthHandler`
unfoldable pub health_handler : String → String → String → String → Exec (Response (Unit {0}))
health_handler pb_port pg_port method name =
    if method == "GET"
    then (do result ← check pb_port pg_port name; pure (health_answer name result))
    else pure (answered 405 ("Method not allowed " <> method))

-- After an error the handler goes on: the status is that of the first answer, and both texts are
-- written.
abbrev pub configure_answer : String → String → Result (Unit {0}) → Exec (Response (Unit {0}))
configure_answer service action (ok u) = pure (answered 200 (service <> " " <> action))
configure_answer service action (err e) = pure (answered 500 (text e <> (service <> " " <> action)))
configure_answer service action panics = panic
configure_answer service action hangs = hang

-- `ServiceHandler`, with what `Configure` reads
unfoldable pub service_handler :
    (String → String) → String → String → String → String → String → Exec (Response (Unit {0}))
service_handler md5 cluster pg_port method service action =
    if method == "PUT"
    then (if action == "configure"
        then (do
          r ← attempt (configure md5 cluster pg_port (new_service service))
          configure_answer service action r)
        else pure (answered 400 ("Invalid Action " <> action <> " for " <> service)))
    else pure (answered 405 ("Method not allowed " <> method))
