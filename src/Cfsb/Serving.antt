-- ===== src/Cfsb/Serving.antt =====
-- How the broker answers requests for instances and bindings.
use rdpg_boshrelease.Base.{
  ℕ, ◌+◌, String, ◌≡◌, ◌≢◌, ne_of_test, refl, ◌⊎◌, inl, inr, eq_iff, ◌==◌, Option, none, some, [],
  append-nil,
}
use rdpg_boshrelease.World.{World, Db, Error}
use rdpg_boshrelease.World.Triple.{Triple, Triple-known, Triple-pure, Triple-if, Triple-weaken}
use rdpg_boshrelease.World.Holding.{Holds}
use rdpg_boshrelease.World.Measure.{Few}
use rdpg_boshrelease.Web.{Response, status, Body, decoded, undecoded}
use rdpg_boshrelease.Web.Answering.{Triple-responding}
use rdpg_boshrelease.Instances.{Instance, retire_database}
use rdpg_boshrelease.Instances.Scanning.{IsAssigned, Triple-find_by_instance_id}
use rdpg_boshrelease.Instances.Changes.{Queued, decommission-Queued}
use rdpg_boshrelease.Instances.Provisioned.{Grown, Provisioned}
use rdpg_boshrelease.Instances.Provisioning.{provision-Provisioned}
use rdpg_boshrelease.Cfsb.Bindings.{missing, new_service_instance}
use rdpg_boshrelease.Cfsb.Handlers.{
  InstanceRequest, provision_new, put_instance, delete_instance, instance_handler,
}

-- the instance of a request
abbrev pub requested : String → InstanceRequest → Instance
requested id r = (new_service_instance id r.service_id r.plan r.organization_id r.space_id).0

module _ (n : ℕ) (cluster id : String) (d : Db) where
  -- Status 200: the instance of a complete request has a database. Status 500: it has none, or the
  -- service cluster could not be told.
  abbrev pub IsPutAnswer : Body InstanceRequest → Response (Unit {0}) → World → Type 0
  IsPutAnswer body a w =
      ((status a ≡ 200)
        × ((r : InstanceRequest) × ((j : Instance) × ((body ≡ decoded r)
                × ((missing (requested id r) ≡ none)
                    × (Provisioned d (requested id r) j w.db × (w.held ≡ [])))))))
      ⊎ ((status a ≡ 500)
          × (Grown d w.db
              ⊎ ((r : InstanceRequest) × ((j : Instance) × ((body ≡ decoded r)
                      × Provisioned d (requested id r) j w.db)))))

  -- Status 200: the removal of the instance's database is queued.
  abbrev pub IsDeleteAnswer : Response (Unit {0}) → World → Type 0
  IsDeleteAnswer a w =
      ((status a ≡ 200) × ((i : Instance) × (IsAssigned d [] id i × Queued cluster i d [] w.db)))
      ⊎ ((status a ≡ 500)
          × ((w.db ≡ d)
              ⊎ ((i : Instance) × (IsAssigned d [] id i
                    × ((now : ℕ) × (w.db ≡ retire_database now i.database d))))))

  Triple-provision_new :
      (body : Body InstanceRequest) (r : InstanceRequest) (o : Option Error)
      → body ≡ decoded r
      → missing (requested id r) ≡ o
      → Triple
          (λ w. Holds d [] w × Few n w)
          (provision_new (n + 3) (requested id r, o))
          (IsPutAnswer body)
          (λ e w. ⊥)
  Triple-provision_new body r none is_body complete =
      Triple-responding _ _ (provision-Provisioned n (requested id r) d)
        (λ e w p. inr (
          refl,
          elim p [ inl grown ↦ inl grown | inr (j, assigned) ↦ inr (r, (j, (is_body, assigned))) ],
        ))
        λ j. Triple-pure _ λ w p. inl (refl, (r, (j, (is_body, (complete, p)))))
  Triple-provision_new body r (some e) is_body incomplete =
      Triple-pure _ λ w p. inr (refl, inl ([], rw (p.0.0, append-nil)))

  Triple-put_instance :
      (body : Body InstanceRequest)
      → Triple
          (λ w. Holds d [] w × Few n w)
          (put_instance (n + 3) id body)
          (IsPutAnswer body)
          (λ e w. ⊥)
  unfolding new_service_instance
  Triple-put_instance (undecoded e) =
      Triple-pure _ λ w p. inr (refl, inl ([], rw (p.0.0, append-nil)))
  Triple-put_instance (decoded r) =
      Triple-provision_new (decoded r) r (missing (requested id r)) refl refl

  Triple-delete_instance :
      Triple (Holds d []) (delete_instance cluster id) IsDeleteAnswer (λ e w. ⊥)
  Triple-delete_instance =
      Triple-responding _ _ (Triple-find_by_instance_id d [] id) (λ e w p. inr (refl, inl p.0))
        λ i. Triple-known λ assigned.
          Triple-responding _ _ (decommission-Queued cluster i d [])
            (λ e w p.
              inr
                (refl, elim p [ inl same ↦ inl same | inr retired ↦ inr (i, (assigned, retired)) ]))
            λ u. Triple-pure _ λ w p. inl (refl, (i, (assigned, p)))

  -- the answers to each method
  abbrev pub IsInstanceAnswer : String → Body InstanceRequest → Response (Unit {0}) → World → Type 0
  IsInstanceAnswer method body a w =
      ((method ≡ "PUT") × IsPutAnswer body a w)
      ⊎ (((method ≡ "DELETE") × IsDeleteAnswer a w)
          ⊎ (((method ≢ "PUT") × (method ≢ "DELETE")) × ((status a ≡ 405) × (w.db ≡ d))))

  -- The handler of instances answers every request, whatever fails, in a process that holds no lock
  -- and with three rounds more than replies that are left. To PUT the status is 200 when the body
  -- is a request in which nothing is missing and its instance was given an available database; it
  -- is 500 when the table has only grown by the rows of others, or the database was assigned and
  -- the service cluster could not be told. To DELETE it is 200 when the removal of the database of
  -- the row with the instance's id is queued, and 500 when the database is at most marked as
  -- retired. To any other method it is 405, and the database is as it was.
  pub instance_handler-InstanceAnswer :
      (method : String) (body : Body InstanceRequest)
      → Triple
          (λ w. Holds d [] w × Few n w)
          (instance_handler (n + 3) cluster method id body)
          (IsInstanceAnswer method body)
          (λ e w. ⊥)
  unfolding instance_handler
  instance_handler-InstanceAnswer method body =
      Triple-if (method == "PUT") _ _
        (λ put.
          Triple-weaken (λ w p. p) (λ a w p. inl ((eq_iff method "PUT").0 put, p)) (λ e w p. p)
            (Triple-put_instance body))
        (λ other.
          Triple-if (method == "DELETE") _ _
            (λ delete.
              Triple-weaken (λ w p. p.0) (λ a w p. inr (inl ((eq_iff method "DELETE").0 delete, p)))
                (λ e w p. p) Triple-delete_instance)
            (λ others.
              let neither : (method ≢ "PUT") × (method ≢ "DELETE") =
                (ne_of_test method "PUT" other, ne_of_test method "DELETE" others) in
              Triple-pure _ λ w p. inr (inr (neither, (refl, p.0.0)))))
