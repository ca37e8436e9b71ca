-- ===== src/Tasks/Reconciling.antt =====
-- The reconciliation of the table with the clusters: it inserts unknown databases only.
use rdpg_boshrelease.Base.{
  String, ◌≡◌, refl, sym, subst, Option, none, some, List, [], ◌∷◌, inl, inr,
}
use rdpg_boshrelease.World.{World, Db, Error, Exec, Action, service, call, ◌>>=◌, ◌>>◌}
use rdpg_boshrelease.World.Triple.{
  Triple, Triple-and, Triple-known, Triple-pure, Triple-if, Triple-weaken, Triple-step, Triple-bind,
  Triple-call, Triple-query, Triple-logged,
}
use rdpg_boshrelease.World.Holding.{Holds, Triple-send}
use rdpg_boshrelease.Instances.{Instance}
use rdpg_boshrelease.Instances.Lookup.{
  Found, Triple-find_by_database, Triple-db, reconcile-Reconciled,
}
use rdpg_boshrelease.Instances.Changes.{Registered, register-Registered}
use rdpg_boshrelease.Instances.Names.{Distinct, Distinct-append, reconcile-Distinct}
use rdpg_boshrelease.Tasks.Reconcile.{
  is_service_cluster, fetch_from, fetch_each, register_unknown, register_each, reconcile_each,
  once_fetched, reconcile_available_databases, reconcile_all_databases,
}

-- The names of the databases are distinct, and no lock is held.
abbrev pub Sound : World → Type 0
Sound w = Distinct w.db.instances × (w.held ≡ [])

Triple-of_Sound :
    {A : Type 0} {m : Exec A} {Q : A → World → Type 0} {E : Error → World → Type 0}
    → ((d : Db) → Distinct d.instances → Triple (Holds d []) m Q E)
    → Triple Sound m Q E
Triple-of_Sound t = Triple-db {R = λ d. Distinct d.instances} t

Sound-by : {d' : Db} (w : World) → Distinct d'.instances → (w.db ≡ d') × (w.held ≡ []) → Sound w
Sound-by w distinct p = (subst (λ x. Distinct x.instances) (sym p.0) distinct, p.1)

-- Requests leave the table alone.
Triple-fetch_from :
    (path : String) (answers : String → Option (List Instance))
    (rest : Exec (Option (List Instance))) (ips : List String)
    → Triple Sound rest (λ is. Sound) (λ e. Sound)
    → Triple Sound (fetch_from path answers rest ips) (λ is. Sound) (λ e. Sound)
Triple-fetch_from path answers rest [] t = Triple-pure _ λ w p. p
Triple-fetch_from path answers rest (ip ∷ ips) t =
    Triple-bind
      (Triple-of_Sound λ d distinct.
        Triple-weaken (λ w p. p) (λ u w p. Sound-by w distinct p) (λ e w p. Sound-by w distinct p)
          (Triple-send d [] _))
      λ u. Triple-bind t λ others. Triple-pure _ λ w p. p

Triple-fetch_each :
    (path : String) (answers : String → Option (List Instance)) (keys : List String)
    → Triple Sound (fetch_each path answers keys) (λ is. Sound) (λ e. Sound)
unfolding fetch_each service
Triple-fetch_each path answers [] = Triple-pure _ λ w p. p
Triple-fetch_each path answers (key ∷ keys) =
    Triple-if (is_service_cluster key) _ _
      (λ yes.
        Triple-step (Triple-query {P = Sound} (λ w rs p. p) (λ w. w.catalog key)) (λ e w p. p.1)
          λ ips.
            Triple-weaken (λ w p. p.0) (λ a w p. p) (λ e w p. p)
              (Triple-fetch_from path answers _ ips (Triple-fetch_each path answers keys)))
      (λ no. Triple-fetch_each path answers keys)

Registered-Distinct :
    (i : Instance) (d d' : Db)
    → Found d i.database none
    → Distinct d.instances
    → Registered i d [] d'
    → Distinct d'.instances
Registered-Distinct i d d' new distinct (inl e) = subst (λ x. Distinct x.instances) (sym e) distinct
Registered-Distinct i d d' new distinct (inr (now, e)) =
    subst (λ x. Distinct x.instances) (sym e) (Distinct-append d.instances _ new distinct)

Triple-register_unknown :
    (i : Instance) (d : Db) (o : Option Instance)
    → Distinct d.instances
    → Found d i.database o
    → Triple (Holds d []) (register_unknown i o) (λ u. Sound) (λ e. Sound)
Triple-register_unknown i d (some known) distinct found =
    Triple-pure tt λ w p. Sound-by w distinct p
Triple-register_unknown i d none distinct new =
    Triple-logged {E = λ e. Sound} (λ e w p. p)
      (Triple-weaken (λ w p. p) (λ u w p. (Registered-Distinct i d w.db new distinct p.0, p.1))
        (λ e w p. (Registered-Distinct i d w.db new distinct p.0, p.1))
        (register-Registered i d [] refl))

Triple-register_each :
    (is : List Instance) → Triple Sound (register_each is) (λ u. Sound) (λ e. Sound)
unfolding register_each
Triple-register_each [] = Triple-pure tt λ w p. p
Triple-register_each (i ∷ is) = Triple-of_Sound λ d distinct.
    Triple-step (Triple-find_by_database d [] i.database) (λ e w p. Sound-by w distinct p)
      λ o. Triple-known λ found.
        Triple-bind (Triple-register_unknown i d o distinct found) λ u. Triple-register_each is

Triple-reconcile_each :
    (is : List Instance) → Triple Sound (reconcile_each is) (λ u. Sound) (λ e. Sound)
unfolding reconcile_each
Triple-reconcile_each [] = Triple-pure tt λ w p. p
Triple-reconcile_each (i ∷ is) =
    Triple-bind
      (Triple-of_Sound λ d distinct.
        Triple-weaken (λ w p. p) (λ u w p. (p.0, p.1.1)) (λ e w p. (p.0, p.1.1))
          (Triple-weaken (λ w p. (p, p)) (λ a w p. p) (λ e w p. p)
            (Triple-and (reconcile-Distinct i d [] refl distinct)
              (reconcile-Reconciled i d [] refl))))
      λ u. Triple-reconcile_each is

Triple-once_fetched :
    (act : List Instance → Action) (o : Option (List Instance))
    → ((is : List Instance) → Triple Sound (act is) (λ u. Sound) (λ e. Sound))
    → Triple Sound (once_fetched act o) (λ u. Sound) (λ e. Sound)
Triple-once_fetched act none t = Triple-pure tt λ w p. p
Triple-once_fetched act (some is) t =
    Triple-step (Triple-call {P = Sound} (λ w rs p. p)) (λ e w p. p.1) λ u. t is

Triple-task :
    (path : String) (answers : String → Option (List Instance)) (keys : List String)
    (act : List Instance → Action)
    → ((is : List Instance) → Triple Sound (act is) (λ u. Sound) (λ e. Sound))
    → Triple Sound
        (do call; call; fetched ← fetch_each path answers keys; once_fetched act fetched)
        (λ u. Sound)
        (λ e. Sound)
Triple-task path answers keys act t =
    Triple-step (Triple-call {P = Sound} (λ w rs p. p)) (λ e w p. p.1)
      λ u.
        Triple-step (Triple-call {P = Sound} (λ w rs p. p)) (λ e w p. p.1)
          λ v.
            Triple-bind (Triple-fetch_each path answers keys)
              λ fetched. Triple-once_fetched act fetched t

-- Both tasks of reconciliation end, whatever fails and whatever the clusters answer, and hold no
-- lock then; the names of the databases in the table are distinct after them if they were so
-- before, in a process that holds no lock.
pub reconcile_tasks-Sound :
    (answers : String → Option (List Instance)) (keys : List String)
    → Triple Sound (reconcile_available_databases answers keys) (λ u. Sound) (λ e. Sound)
      × Triple Sound (reconcile_all_databases answers keys) (λ u. Sound) (λ e. Sound)
unfolding reconcile_available_databases reconcile_all_databases
reconcile_tasks-Sound answers keys = (
  Triple-task "databases/available" answers keys register_each Triple-register_each,
  Triple-task "databases" answers keys reconcile_each Triple-reconcile_each,
)
