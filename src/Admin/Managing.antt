-- ===== src/Admin/Managing.antt =====
-- How the administration API answers requests for databases.
use rdpg_boshrelease.Base.{
  ℕ, String, ◌≡◌, ◌≢◌, ne_of_test, true, refl, ◌⊎◌, inl, inr, eq_iff, false, ◌==◌, none, List, [],
  select, first,
}
use rdpg_boshrelease.World.{Reply, World, InstanceRow, Db, panics, call, query, get_row}
use rdpg_boshrelease.World.Triple.{Triple, Triple-pure, Triple-if, Triple-weaken}
use rdpg_boshrelease.World.Holding.{Holds}
use rdpg_boshrelease.World.Measure.{Few}
use rdpg_boshrelease.Web.{Response, answered, served, status, Body, decoded, undecoded}
use rdpg_boshrelease.Web.Answering.{Triple-responding}
use rdpg_boshrelease.Instances.{Instance, find_by_database, is_available, assign_database}
use rdpg_boshrelease.Instances.Changes.{Registered, register-Registered}
use rdpg_boshrelease.Instances.Assigning.{fails_first, assign-Assigned}
use rdpg_boshrelease.Admin.Databases.{
  get_databases, post_databases, put_databases, databases_handler,
}
use rdpg_boshrelease.Admin.Listing.{Lists, Triple-all, Triple-available}

module _ (n : ℕ) (cluster action : String) (d : Db) where
  -- a served list
  abbrev pub IsServed : List InstanceRow → Response (List Instance) → Type 0
  IsServed rows (served is) = Lists rows is
  IsServed rows (answered code text) = ⊥

  -- GET: the list that the action names, or an error; the database is as it was.
  abbrev pub IsGetAnswer : Response (List Instance) → World → Type 0
  IsGetAnswer a w =
      (w.db ≡ d)
      × (((action ≡ "") × (IsServed d.instances a ⊎ (status a ≡ 500)))
          ⊎ (((action ≡ "available")
                × (IsServed (select is_available d.instances) a ⊎ (status a ≡ 500)))
              ⊎ (((action ≢ "") × (action ≢ "available")) × (status a ≡ 400))))

  Triple-get_databases : Triple (Holds d []) (get_databases action) IsGetAnswer (λ e w. ⊥)
  Triple-get_databases =
      Triple-if (action == "") _ _
        (λ every.
          let is_empty : action ≡ "" = (eq_iff action "").0 every in
          Triple-responding _ _ (Triple-all d []) (λ e w p. (p.0, inl (is_empty, inr refl)))
            λ is. Triple-pure _ λ w p. (p.0.0, inl (is_empty, inl p.1)))
        (λ some_only.
          Triple-if (action == "available") _ _
            (λ free.
              let is_free : action ≡ "available" = (eq_iff action "available").0 free in
              Triple-responding _ _ (Triple-available d [])
                (λ e w p. (p.0, inr (inl (is_free, inr refl))))
                λ is. Triple-pure _ λ w p. (p.0.0, inr (inl (is_free, inl p.1))))
            (λ other.
              let not_every : action ≢ "" = ne_of_test action "" some_only in
              let not_free : action ≢ "available" = ne_of_test action "available" other in
              Triple-pure _ λ w p. (p.0, inr (inr ((not_every, not_free), refl)))))

  -- POST: the database of the body is registered, by the one action that there is.
  abbrev pub IsPostAnswer : Body Instance → Response (List Instance) → World → Type 0
  IsPostAnswer (undecoded e) a w = (w.held ≡ []) × ((status a ≡ 500) × (w.db ≡ d))
  IsPostAnswer (decoded i) a w =
      (w.held ≡ [])
      × (((action ≡ "register") × (((status a ≡ 200) ⊎ (status a ≡ 500)) × Registered i d [] w.db))
          ⊎ ((action ≢ "register") × ((status a ≡ 400) × (w.db ≡ d))))

  Triple-post_databases :
      (body : Body Instance)
      → Triple (Holds d []) (post_databases action body) (IsPostAnswer body) (λ e w. ⊥)
  Triple-post_databases (undecoded e) = Triple-pure _ λ w p. (p.1, (refl, p.0))
  Triple-post_databases (decoded i) =
      Triple-if (action == "register") _ _
        (λ registers.
          let is_register : action ≡ "register" = (eq_iff action "register").0 registers in
          Triple-responding _ _ (register-Registered i d [] refl)
            (λ e w p. (p.1, inl (is_register, (inr refl, p.0))))
            λ u. Triple-pure _ λ w p. (p.1, inl (is_register, (inl refl, p.0))))
        (λ other. Triple-pure _ λ w p. (p.1, inr (ne_of_test action "register" other, (refl, p.0))))

  -- PUT: the rows of the body's database are assigned to its instance, by the one action that
  -- there is; they are not if the first of the calls `rs` fails.
  abbrev pub IsPutAnswer : List Reply → Body Instance → Response (List Instance) → World → Type 0
  IsPutAnswer rs (undecoded e) a w =
      (w.held ≡ []) × ((status a ≡ 500) × (w.db.instances ≡ d.instances))
  IsPutAnswer rs (decoded i) a w =
      (w.held ≡ [])
      × (((action ≡ "assign")
            × ((((status a ≡ 200) ⊎ (status a ≡ 500))
                  × (w.db.instances ≡ (assign_database i d).instances))
                ⊎ ((status a ≡ 500) × ((fails_first rs ≡ true) × (w.db.instances ≡ d.instances)))))
          ⊎ ((action ≢ "assign") × ((status a ≡ 400) × (w.db.instances ≡ d.instances))))

  Triple-put_databases :
      (rs : List Reply) (body : Body Instance)
      → Triple
          (λ w. (Holds d [] w × Few n w) × (w.replies ≡ rs))
          (put_databases n cluster action body)
          (IsPutAnswer rs body)
          (λ e w. ⊥)
  Triple-put_databases rs (undecoded e) = Triple-pure _ λ w p. (p.0.0.1, (refl, rw p.0.0.0))
  Triple-put_databases rs (decoded i) =
      Triple-if (action == "assign") _ _
        (λ assigns.
          let is_assign : action ≡ "assign" = (eq_iff action "assign").0 assigns in
          Triple-responding _ _ (assign-Assigned n cluster i d rs)
            (λ e w p. elim p [
              | inl same ↦ (same.0.1, inl (is_assign, inr (refl, (same.1, same.0.0))))
              | inr table ↦ (table.1, inl (is_assign, inl (inr refl, table.0)))
            ])
            λ u. Triple-pure _ λ w p. (p.1, inl (is_assign, inl (inl refl, p.0))))
        (λ other.
          Triple-pure _
            λ w p. (p.0.0.1, inr (ne_of_test action "assign" other, (refl, rw p.0.0.0))))

  -- the answers to each method
  abbrev pub IsDatabasesAnswer :
      List Reply → String → Body Instance → Response (List Instance) → World → Type 0
  IsDatabasesAnswer rs method body a w =
      ((method ≡ "GET") × IsGetAnswer a w)
      ⊎ (((method ≡ "POST") × IsPostAnswer body a w)
          ⊎ (((method ≡ "PUT") × IsPutAnswer rs body a w)
              ⊎ (((method ≢ "GET") × ((method ≢ "POST") × (method ≢ "PUT")))
                  × ((status a ≡ 405) × (w.db ≡ d)))))

  -- The handler of databases answers every request but DELETE, whatever fails, in a process that
  -- holds no lock and with fuel above the replies that are left. To GET it serves the names of all
  -- databases without an action, and of the available ones with "available", in the order of the
  -- table, or the status is 500; with another action it is 400; the database is as it was. To POST
  -- with "register" the database of the body is registered at most once, and the status is 200 or
  -- 500; with another action it is 400. To PUT with "assign" the rows of the body's database are
  -- assigned to its instance, and the status is 200 or 500, or it is 500, the first call has failed
  -- and the table is as it was; with another action it is 400. A body that is not decoded is
  -- answered with 500 to both, and no lock is held after them. Any other method than the three is
  -- answered with 405, and the database is as it was.
  pub databases_handler-DatabasesAnswer :
      (method database : String) (body : Body Instance) (rs : List Reply)
      → (method == "DELETE") ≡ false
      → Triple
          (λ w. (Holds d [] w × Few n w) × (w.replies ≡ rs))
          (databases_handler n cluster method action database body)
          (IsDatabasesAnswer rs method body)
          (λ e w. ⊥)
  unfolding databases_handler
  databases_handler-DatabasesAnswer method database body rs kept =
      Triple-if (method == "GET") _ _
        (λ get.
          Triple-weaken (λ w p. p.0.0) (λ a w p. inl ((eq_iff method "GET").0 get, p)) (λ e w p. p)
            Triple-get_databases)
        (λ not_get.
          Triple-if (method == "POST") _ _
            (λ post.
              Triple-weaken (λ w p. p.0.0) (λ a w p. inr (inl ((eq_iff method "POST").0 post, p)))
                (λ e w p. p) (Triple-post_databases body))
            (λ not_post.
              Triple-if (method == "PUT") _ _
                (λ put.
                  Triple-weaken (λ w p. p)
                    (λ a w p. inr (inr (inl ((eq_iff method "PUT").0 put, p)))) (λ e w p. p)
                    (Triple-put_databases rs body))
                (λ not_put.
                  let others : (method ≢ "GET") × ((method ≢ "POST") × (method ≢ "PUT")) = (
                    ne_of_test method "GET" not_get,
                    (ne_of_test method "POST" not_post, ne_of_test method "PUT" not_put),
                  ) in
                  rw kept (Triple-pure _ λ w p. inr (inr (inr (others, (refl, p.0.0.0))))))))

-- DELETE of a database that no row has panics, when the calls succeed.
pub databases_handler-panics :
    (n : ℕ) (cluster database : String) (body : Body Instance) (w : World)
    → first (λ r. r.dbname == database) w.db.instances ≡ none
    → (databases_handler n cluster "DELETE" "decommission" database body
        (record w { replies = [] })).0
      ≡ panics
unfolding databases_handler find_by_database get_row query call
databases_handler-panics n cluster database body w unknown = rw unknown
