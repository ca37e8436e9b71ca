-- ===== src/Rdpg/Hiding.antt =====
-- What `Bootstrap` does not tell of.
use rdpg_boshrelease.Base.{Bool, true, false, if◌then◌else◌, String, ◌≡◌, ◌≢◌, refl, ℕ}
use rdpg_boshrelease.World.{
  World, Error, Result, ok, err, panics, hangs, Action, continue, caught, pure, logged, call, query,
  ◌>>◌,
}
use rdpg_boshrelease.Services.{new_service, configure}
use rdpg_boshrelease.Tasks.{is_service_cluster}
use rdpg_boshrelease.Rdpg.Cluster.{Daemon, Others, register_service}
use rdpg_boshrelease.Rdpg.Bootstrap.{
  Setup, join_key, get_key, by_leader, reconfigure_services, register_consul_services,
  register_consul_watches, under_lock,
}

-- An action that returns no error.
abbrev pub IsSilent : Action → Type 0
IsSilent m = (w : World) (e : Error) → (m w).0 ≢ err e

continue-err :
    {A : Type 0} (r : Result A) (n : A → Action) (w : World) (e : Error)
    → ((x : Error) → r ≢ err x)
    → ((a : A) → IsSilent (n a))
    → (continue r n w).0 ≢ err e
continue-err (ok a) n w e hr hn = hn a w e
continue-err (err x) n w e hr hn = λ q. hr x refl
continue-err panics n w e hr hn = λ q. cc
continue-err hangs n w e hr hn = λ q. cc

IsSilent-then : (m n : Action) → IsSilent m → IsSilent n → IsSilent (do m; n)
IsSilent-then m n hm hn w e = continue-err (m w).0 (λ u. n) (m w).1 e (hm w) (λ u. hn)

caught-err : {A : Type 0} (r : Result A) (x : Error) → caught r ≢ err x
caught-err (ok a) x = λ q. cc
caught-err (err y) x = λ q. cc
caught-err panics x = λ q. cc
caught-err hangs x = λ q. cc

IsSilent-pure : IsSilent (pure tt)
IsSilent-pure w e = λ q. cc

IsSilent-logged : (m : Action) → IsSilent (logged m)
IsSilent-logged m w e =
    continue-err (caught (m w).0) (λ r. pure tt) (m w).1 e (caught-err (m w).0) (λ r. IsSilent-pure)

get_key-ne-err :
    (key : String) (w : World) → (call w).0 ≡ ok tt → (x : Error) → (get_key key w).0 ≢ err x
unfolding get_key query
get_key-ne-err key w answered x = rw answered (λ q. cc)

IsSilent-if : (b : Bool) (m n : Action) → IsSilent m → IsSilent n → IsSilent (if b then m else n)
IsSilent-if true m n hm hn = hm
IsSilent-if false m n hm hn = hn

reconfigure_services-IsSilent : (d : Daemon) (s : Setup) → IsSilent (reconfigure_services d s)
unfolding reconfigure_services
reconfigure_services-IsSilent d s =
    IsSilent-then _ _
      (IsSilent-logged (configure s.md5 d.cluster_id d.pg_port (new_service "pgbdr")))
      (IsSilent-then _ _
        (IsSilent-logged (configure s.md5 d.cluster_id d.pg_port (new_service "pgbouncer")))
        (IsSilent-logged (configure s.md5 d.cluster_id d.pg_port (new_service "haproxy"))))

register_consul_services-IsSilent : (d : Daemon) → IsSilent (register_consul_services d)
unfolding register_consul_services
register_consul_services-IsSilent d =
    IsSilent-if (is_service_cluster d.cluster_id) _ _
      (IsSilent-then _ _ (IsSilent-logged (register_service "haproxy" d.my_ip)) (
        IsSilent-then _ _ (IsSilent-logged (register_service "pgbouncer" d.my_ip))
          (IsSilent-logged (register_service "postgres" d.my_ip))))
      IsSilent-pure

-- Once the address of the node to join is read, the bootstrap under the lock returns no error,
-- whatever fails behind: neither when the node cannot join the group, which the code calls
-- critical, nor when the schema is not made.
pub under_lock-IsSilent :
    (fuel : ℕ) (d : Daemon) (o : Others) (s : Setup) (w : World)
    → (call w).0 ≡ ok tt
    → (e : Error) → (under_lock fuel d o s w).0 ≢ err e
unfolding under_lock get_key query reconfigure_services register_consul_services
    register_consul_watches
under_lock-IsSilent fuel d o s w answered e =
    continue-err (get_key (join_key d) w).0 _ (get_key (join_key d) w).1 e
      (get_key-ne-err (join_key d) w answered)
      λ join_ip. IsSilent-then _ _ (IsSilent-logged (by_leader fuel d o s join_ip)) (
        IsSilent-then _ _ (IsSilent-logged (reconfigure_services d s))
          (IsSilent-then _ _ (IsSilent-logged (register_consul_services d)) IsSilent-pure))
