-- ===== src/Instances/Leaks.antt =====
-- Errors that `Provision`, `Register` and `DSN` do not handle.
use rdpg_boshrelease.Base.{
  ℕ, suc, String, ◌≡◌, refl, ◌==◌, some, List, [], ◌∷◌, first, eq_refl, split, ◌<>◌,
}
use rdpg_boshrelease.World.{
  World, InstanceRow, message, Reply, done, fails, ok, err, panics, hangs, call, exec_db, query,
  get_row, lock, unlock, release, service, catalog-call,
}
use rdpg_boshrelease.Instances.Model.{
  Instance, lock_key, lock_instance, unlock_instance, external_dns, dsn,
}
use rdpg_boshrelease.Instances.Find.{find_by_database}
use rdpg_boshrelease.Instances.Assign.{
  next_available, provision_loop, provision, assign_and_tell, register,
}

-- The calls of `Provision` up to the lock succeed, and the UPDATE fails.
abbrev pub until_update : String → List Reply
until_update e = done ∷ done ∷ done ∷ done ∷ done ∷ done ∷ fails e ∷ []

-- If a database is available, and the UPDATE fails after calls that succeed, `Provision` returns
-- that error without a release of the lock: the next `Provision` waits for the lock for ever.
pub provision-leaks_lock :
    (n m : ℕ) (i j : Instance) (w : World) (e : String) (r x : InstanceRow)
    → next_available w.db ≡ some r
    → first (λ s. s.dbname == r.dbname) w.db.instances ≡ some x
    → ((provision (suc n) i (record w { held = []; replies = until_update e })).0 ≡ err (message e))
      × ((provision
            (suc m)
            j
            (provision (suc n) i (record w { held = []; replies = until_update e })).1).0
          ≡ hangs)
unfolding provision provision_loop call exec_db query get_row lock find_by_database lock_instance
    lock_key assign_and_tell
provision-leaks_lock n m i j w e r x next row = (rw (next, row), rw (next, row, next, row, eq_refl))

-- `Register` returns no error when its INSERT fails and its other calls succeed, and the database
-- is as it was.
pub register-hides_failure :
    (i : Instance) (w : World) (e : String)
    → ((register i (record w { held = []; replies = done ∷ done ∷ done ∷ fails e ∷ [] })).0 ≡ ok tt)
      × ((register i (record w { held = []; replies = done ∷ done ∷ done ∷ fails e ∷ [] })).1.db
          ≡ w.db)
unfolding register call exec_db lock unlock release lock_instance unlock_instance
register-hides_failure i w e = (rw eq_refl refl, rw eq_refl refl)

-- `DSN` panics when Consul answers but knows no master of the cluster: the address is empty then,
-- which has no second part.
pub dsn-panics :
    (i : Instance) (w : World)
    → (call w).0 ≡ ok tt
    → w.catalog (i.cluster_id <> "-master") ≡ []
    → (dsn i w).0 ≡ panics
unfolding dsn external_dns service query split
dsn-panics i w answered no_master = rw answered (rw (catalog-call, no_master))
