-- ===== src/Cfsb/Attached.antt =====
-- What PUT and DELETE of a binding do, and how the broker answers them.
use rdpg_boshrelease.Base.{
  ℕ, String, ◌<>◌, ◌≡◌, ◌≢◌, ap, sym, ◌∙◌, refl, true, ◌⊎◌, inl, inr, List, [], ◌∷◌, split,
  false≢true,
}
use rdpg_boshrelease.World.{World, Db, call, attempt, ok, panics, service, query, ◌>>=◌, ◌>>◌}
use rdpg_boshrelease.World.Triple.{
  Triple, Triple-known, Triple-pure, Triple-weaken, Triple-step, Triple-bind, Triple-and,
  Triple-attempt, Triple-call,
}
use rdpg_boshrelease.World.Holding.{Holds}
use rdpg_boshrelease.Web.{Response, status, served}
use rdpg_boshrelease.Instances.{
  Instance, find_by_instance_id, master_dns, uri_at, external_dns, uri, dsn,
}
use rdpg_boshrelease.Instances.Scanning.{IsAssigned, Triple-find_by_instance_id}
use rdpg_boshrelease.Cfsb.Bindings.{
  Credentials, Binding, credentials_at, find_binding, bind_if_unknown, create_binding,
  retire_binding,
}
use rdpg_boshrelease.Cfsb.Handlers.{binding_handler}
use rdpg_boshrelease.Cfsb.Storing.{is_bound}
use rdpg_boshrelease.Cfsb.Addressing.{
  Sees, has_two, has_two-dns, Triple-external_dns, Triple-uri, Triple-dsn, Triple-jdbc_uri,
}
use rdpg_boshrelease.Cfsb.Attaching.{
  Bound, Unbound, Triple-find_keeps, Triple-find_binding, Triple-bind_if_unknown,
}

module _ (d : Db) (h : List String) (b : Binding) where
  -- The credentials of the binding are those of the instance that it names, at the address of the
  -- master of its cluster.
  abbrev pub IsOf : (String → List String) → Instance → Credentials → Type 0
  IsOf known i c =
      let dns = master_dns (known (i.cluster_id <> "-master")) in
      (c.binding_id ≡ b.binding_id)
      × ((c.instance_id ≡ b.instance_id)
          × ((c.database ≡ i.database)
              × ((c.username ≡ i.user)
                  × ((c.password ≡ i.pass)
                      × ((c.uri ≡ uri_at i dns)
                          × ((c.jdbc_uri ≡ "jdbc:" <> uri_at i dns)
                              × ((rest : List String) × (split b':' dns
                                    ≡ c.host ∷ c.port ∷ rest))))))))

  abbrev pub IsCredentials : (String → List String) → Credentials → Type 0
  IsCredentials known c = (i : Instance) × (IsAssigned d h b.instance_id i × IsOf known i c)

  -- The table is as it was, or the credentials of a binding that it does not have are stored.
  abbrev pub IsFailed : World → Type 0
  IsFailed w = Holds d h w ⊎ ((c : Credentials) × Unbound d h b c w)

  module _ (known : String → List String)
      (masters : (cluster : String) → known (cluster <> "-master") ≢ []) where
    Triple-credentials_at :
        (i : Instance) (dns u s j : String) (parts : List String)
        → dns ≡ master_dns (known (i.cluster_id <> "-master"))
        → u ≡ uri_at i (master_dns (known (i.cluster_id <> "-master")))
        → j ≡ "jdbc:" <> uri_at i (master_dns (known (i.cluster_id <> "-master")))
        → split b':' dns ≡ parts
        → has_two parts ≡ true
        → Triple
            (Sees d h known)
            (credentials_at b i u s j parts)
            (λ c w. Sees d h known w × IsOf known i c)
            (λ e. IsFailed)
    Triple-credentials_at i dns u s j [] at hu hj parts two = absurd (false≢true two)
    Triple-credentials_at i dns u s j (x ∷ []) at hu hj parts two = absurd (false≢true two)
    Triple-credentials_at i dns u s j (x ∷ y ∷ xs) at hu hj parts two = Triple-pure _ λ w p. (
      p,
      (refl, (refl, (refl, (refl, (refl, (hu, (hj, (xs, ap (split b':') (sym at) ∙ parts)))))))),
    )

    stored :
        (i : Instance) (c : Credentials)
        → IsAssigned d h b.instance_id i
        → IsOf known i c
        → Triple
            (Holds d h)
            (do call; found ← attempt (find_binding b.binding_id); bind_if_unknown b c found)
            (λ changed w. (c : Credentials) × (Bound d h b c changed w × IsCredentials known c))
            (λ e. IsFailed)
    stored i c assigned of =
        Triple-step (Triple-call {P = Holds d h} (λ w rs p. p)) (λ e w p. inl p.1)
          λ u. Triple-bind (Triple-attempt (Triple-find_binding d h b.binding_id)) λ found.
            Triple-weaken (λ w p. p) (λ changed w p. (c, (p, (i, (assigned, of)))))
              (λ e w p. inr (c, p)) (Triple-bind_if_unknown d h b c found of.0)

    pub Triple-create_binding :
        Triple
          (Sees d h known)
          (create_binding b)
          (λ changed w. (c : Credentials) × (Bound d h b c changed w × IsCredentials known c))
          (λ e. IsFailed)
    unfolding create_binding
    Triple-create_binding =
        Triple-step
          (Triple-and (Triple-find_by_instance_id d h b.instance_id)
            (Triple-find_keeps {P = λ w. w.catalog ≡ known} (λ w rs p. p) b.instance_id))
          (λ e w p. inl p.0)
          λ i.
            Triple-weaken (λ w p. ((p.0.0, p.1), p.0.1)) (λ c w p. p) (λ e w p. p)
              (Triple-known λ assigned.
                Triple-step (Triple-external_dns d h known i) (λ e w p. inl p.0)
                  λ dns. Triple-known λ at.
                    Triple-step (Triple-uri d h known i) (λ e w p. inl p.0)
                      λ u. Triple-known λ hu.
                        Triple-step (Triple-dsn d h known masters i) (λ e w p. inl p.0)
                          λ s.
                            Triple-step (Triple-jdbc_uri d h known i) (λ e w p. inl p.0)
                              λ j. Triple-known λ hj.
                                Triple-bind
                                  (Triple-credentials_at i dns u s j (split b':' dns) at hu hj refl
                                    (has_two-dns d h known masters i.cluster_id dns at))
                                  λ c. Triple-known λ of.
                                    Triple-weaken (λ w p. p.0) (λ c w p. p) (λ e w p. p)
                                      (stored i c assigned of))

module _ (d : Db) (h : List String) (id : String) where
  -- The binding was in the table, and is ineffective now.
  abbrev pub Retired : World → Type 0
  Retired w = (is_bound id d ≡ true) × ((now : ℕ) × Holds (retire_binding now id d) h w)

module _ (d : Db) (h : List String) (b : Binding) (known : String → List String) where
  abbrev pub IsBindingAnswer : String → Response Credentials → World → Type 0
  IsBindingAnswer method a w =
      ((method ≡ "PUT")
        × (((c : Credentials) × ((changed : Credentials) × ((a ≡ served changed)
                  × (Bound d h b c changed w × IsCredentials d h b known c))))
            ⊎ ((status a ≡ 500) × IsFailed d h b w)))
      ⊎ (((method ≡ "DELETE")
            × (((status a ≡ 200) × Retired d h b.binding_id w) ⊎ ((status a ≡ 500) × Holds d h w)))
          ⊎ (((method ≢ "PUT") × (method ≢ "DELETE")) × ((status a ≡ 405) × Holds d h w)))

-- If Consul lists no master of the cluster of an instance that is assigned, a PUT of a binding for
-- that instance panics, when the calls succeed.
pub binding_handler-panics :
    (b : Binding) (i : Instance) (w : World)
    → w.replies ≡ []
    → find_by_instance_id b.instance_id w ≡ (ok i, w)
    → w.catalog (i.cluster_id <> "-master") ≡ []
    → (binding_handler "PUT" b.instance_id b.binding_id w).0 ≡ panics
unfolding binding_handler create_binding external_dns uri dsn service query call split
binding_handler-panics b i w sure found no_master = rw (found, sure, no_master)
