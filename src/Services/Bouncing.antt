-- ===== src/Services/Bouncing.antt =====
-- The files of pgbouncer: an entry for every active database, and one for its user.
use rdpg_boshrelease.Base.{
  String, ◌<>◌, ◌≡◌, refl, ◌⊎◌, inl, inr, true, false, Option, none, some, List, [], ◌∷◌, map,
  select, is_null,
}
use rdpg_boshrelease.World.{World, InstanceRow, Db, update}
use rdpg_boshrelease.World.Triple.{
  Triple, Triple-known, Triple-pure, Triple-raise, Triple-if, Triple-weaken, Triple-step,
  Triple-bind, Triple-call, Triple-query,
}
use rdpg_boshrelease.Instances.{Instance, scanned, scan_assigned, scan_each, is_active, active}
use rdpg_boshrelease.Services.Config.{
  node_dir, ini_template, users_template, ini_path, users_path, database_line, user_line,
  configure_users, configure_pgbouncer,
}
use rdpg_boshrelease.Services.Lines.{lines, join-lines}
use rdpg_boshrelease.Services.Writing.{
  Files, Node, Triple-read_file, Triple-write_file, Triple-run, Triple-is_missing,
}

module _ (md5 : String → String) (pg_port : String) where
  -- the lines of a row
  abbrev pub database_entry : InstanceRow → String
  database_entry r = r.dbname <> " = host=127.0.0.1 port=" <> pg_port <> " dbname=" <> r.dbname

  abbrev pub user_entry : InstanceRow → String
  user_entry r = "\"" <> r.dbuser <> "\" \"" <> ("md5" <> md5 (r.dbpass <> r.dbuser)) <> "\""

  abbrev hashed : InstanceRow → InstanceRow
  hashed r = record r { cluster_id = ""; dbpass = "md5" <> md5 (r.dbpass <> r.dbuser) }

  -- The instances have the entries of the rows.
  abbrev HasEntries : List InstanceRow → List Instance → Type 0
  HasEntries rows is =
      (map (database_line pg_port) is ≡ map database_entry rows)
      × (map user_line is ≡ map user_entry rows)

  module _ (d : Db) (f : Files) where
    Triple-scanned_on :
        (o : Option String) → Triple (Node d f) (scanned o) (λ s. Node d f) (λ e. Node d f)
    Triple-scanned_on none = Triple-raise _ λ w p. p
    Triple-scanned_on (some s) = Triple-pure s λ w p. p

    Triple-scan_hashed :
        (r : InstanceRow)
        → Triple
            (Node d f)
            (scan_assigned (hashed r))
            (λ i w.
              Node d f w
              × ((database_line pg_port i ≡ database_entry r) × (user_line i ≡ user_entry r)))
            (λ e. Node d f)
    Triple-scan_hashed r = Triple-bind (Triple-scanned_on r.instance_id) λ a.
        Triple-bind (Triple-scanned_on r.service_id) λ b.
          Triple-bind (Triple-scanned_on r.plan_id) λ c.
            Triple-bind (Triple-scanned_on r.organization_id) λ x.
              Triple-bind (Triple-scanned_on r.space_id) λ y. Triple-pure _ λ w p. (p, (refl, refl))

    Triple-scan_all_hashed :
        (rows : List InstanceRow)
        → Triple
            (Node d f)
            (scan_each (λ r. scan_assigned (hashed r)) rows)
            (λ is w. Node d f w × HasEntries rows is)
            (λ e. Node d f)
    Triple-scan_all_hashed [] = Triple-pure [] λ w p. (p, (refl, refl))
    Triple-scan_all_hashed (r ∷ rows) = Triple-bind (Triple-scan_hashed r) λ i.
        Triple-known λ first_line. Triple-bind (Triple-scan_all_hashed rows) λ is.
          Triple-pure (i ∷ is) λ w p. (p.0, (rw (first_line.0, p.1.0), rw (first_line.1, p.1.1)))

    Triple-active :
        Triple
          (Node d f)
          (active md5)
          (λ is w. Node d f w × HasEntries (select is_active d.instances) is)
          (λ e. Node d f)
    unfolding active
    Triple-active =
        Triple-step (Triple-call {P = Node d f} (λ w rs p. p)) (λ e w p. p.1)
          λ u.
            Triple-step
              (Triple-query {P = Node d f} (λ w rs p. p) (λ w. select is_active w.db.instances))
              (λ e w p. p.1)
              λ rows.
                Triple-weaken {P' = λ w. Node d f w × (select is_active d.instances ≡ rows)}
                  (λ w p. (p.0, rw p.0.0 at (p.1))) (λ a w p. p) (λ e w p. p)
                  (Triple-known λ same.
                    Triple-weaken (λ w p. p) (λ is w p. rw same p) (λ e w p. p)
                      (Triple-scan_all_hashed rows))

    -- the two files that are made from the templates
    abbrev pub ini_file : String → Files → Files
    ini_file ini g =
        update g ini_path (some (lines (ini ∷ map database_entry (select is_active d.instances))))

    abbrev pub users_file : String → Files → Files
    users_file users g =
        update g users_path (some (lines (users ∷ map user_entry (select is_active d.instances))))

    -- Both files are written from the templates.
    abbrev pub IsWritten : World → Type 0
    IsWritten w =
        (ini : String) × ((users : String) × ((f ini_template ≡ some ini)
            × ((f users_template ≡ some users) × (w.files ≡ users_file users (ini_file ini f)))))

    -- No file is written, or the first alone.
    abbrev pub IsUnwritten : World → Type 0
    IsUnwritten w =
        (w.files ≡ f)
        ⊎ ((ini : String) × ((f ini_template ≡ some ini) × (w.files ≡ ini_file ini f)))

    Triple-configure_users :
        Triple
          (Node d f)
          (configure_users md5 pg_port)
          (λ u. IsWritten)
          (λ e w. IsUnwritten w ⊎ IsWritten w)
    unfolding configure_users
    Triple-configure_users =
        Triple-step Triple-active (λ e w p. inl (inl p.1))
          λ is. Triple-known λ entries.
            Triple-step (Triple-read_file d f ini_template) (λ e w p. inl (inl p.1))
              λ ini. Triple-known λ has_ini.
                Triple-step (Triple-read_file d f users_template) (λ e w p. inl (inl p.1))
                  λ users. Triple-known λ has_users.
                    rw
                      (
                        join-lines ini (map (database_line pg_port) is),
                        join-lines users (map user_line is),
                        entries.0,
                        entries.1,
                      )
                      (Triple-step (Triple-write_file d f ini_path _) (λ e w p. inl (inl p.1))
                        λ u.
                          Triple-step (Triple-write_file d (ini_file ini f) users_path _)
                            (λ e w p. inl (inr (ini, (has_ini, p.1))))
                            λ v.
                              Triple-weaken (λ w p. p)
                                (λ u w p. (ini, (users, (has_ini, (has_users, p.1)))))
                                (λ e w p. inr (ini, (users, (has_ini, (has_users, p.1)))))
                                (Triple-run d (users_file users (ini_file ini f)) _))

    -- The configuration of pgbouncer returns. Without an error, and on a node that has the
    -- directory of the service, both files are written: the template, then a line for each active
    -- database of the table, in its order, and the template of the users, then a line for the user
    -- of each, with the MD5 of its password and name. Elsewhere no file changes. After an error no
    -- file has changed, the first file alone is written so, or both are.
    pub configure_pgbouncer-Configured :
        Triple
          (Node d f)
          (configure_pgbouncer md5 pg_port)
          (λ u w.
            (is_null (f node_dir) ≡ false × IsWritten w)
            ⊎ (is_null (f node_dir) ≡ true × (w.files ≡ f)))
          (λ e w. IsUnwritten w ⊎ IsWritten w)
    unfolding configure_pgbouncer
    configure_pgbouncer-Configured = Triple-bind (Triple-is_missing d f node_dir) λ missing.
        Triple-known λ tested.
          Triple-if missing _ _ (λ absent. Triple-pure _ λ w p. inr (rw tested absent, p.1))
            (λ present.
              Triple-weaken (λ w p. p) (λ u w p. inl (rw tested present, p)) (λ e w p. p)
                Triple-configure_users)
