-- ===== src/Tasks/Covering.antt =====
-- After the schedules of backups are made, every database has one.
use rdpg_boshrelease.Base.{
  ℕ, String, ◌≡◌, sym, ap, ◌∙◌, true, none, List, [], ◌∷◌, ◌++◌, map, select, member, any-append,
  append-nil, append_assoc,
}
use rdpg_boshrelease.World.{Db, World, Result, ok, err, panics, hangs, error_of}
use rdpg_boshrelease.World.Triple.{
  Post, Triple, Triple-known, Triple-pure, Triple-weaken, Triple-bind, Triple-attempt, Triple-gets,
}
use rdpg_boshrelease.World.Sure.{Sure, Triple-call-Sure, Triple-query-Sure, Triple-exec_db-Sure}
use rdpg_boshrelease.Tasks.Maintenance.{exec_query}
use rdpg_boshrelease.Tasks.Backups.{
  has_backups, scheduled, missing_databases, insert_schedule, schedule_each, schedule_new_backups,
}
use rdpg_boshrelease.Tasks.Backing.{Backs, scheduled-insert_schedule, member-except}

Triple-insert-Sure :
    (cluster n : String) (now : ℕ) (names : List String)
    → Triple
        (Sure (Backs names))
        (exec_query (insert_schedule cluster n now))
        (λ u. Sure (Backs (names ++ (n ∷ []))))
        (λ e w. ⊥)
Triple-insert-Sure cluster n now names =
    Triple-bind (Triple-call-Sure {P = Backs names} (λ w rs p. p)) λ u.
      Triple-exec_db-Sure {P = Backs names} (λ w rs p. p) {Q = Backs (names ++ (n ∷ []))} _
        (λ w p. scheduled-insert_schedule cluster n now w.db ∙ ap (λ xs. xs ++ (n ∷ [])) p)

-- the rest of the loop after an INSERT that succeeds
Triple-after_insert :
    {P Q : World → Type 0} (cluster : String) (ns : List String) (r : Result (Unit {0}))
    → Triple P (schedule_each cluster none ns) (λ u. Q) (λ e w. ⊥)
    → Triple
        (λ w. Post (λ (u : Unit {0}). P) (λ e w. ⊥) r w)
        (schedule_each cluster (error_of r) ns)
        (λ u. Q)
        (λ e w. ⊥)
Triple-after_insert cluster ns (ok u) t = t
Triple-after_insert cluster ns (err e) t = record { at = λ w p. absurd p }
Triple-after_insert cluster ns panics t = record { at = λ w p. absurd p }
Triple-after_insert cluster ns hangs t = record { at = λ w p. absurd p }

Triple-schedule_all :
    (cluster : String) (ns names : List String)
    → Triple
        (Sure (Backs names))
        (schedule_each cluster none ns)
        (λ u. Backs (names ++ ns))
        (λ e w. ⊥)
unfolding schedule_each
Triple-schedule_all cluster [] names = Triple-pure tt λ w p. rw append-nil (p.0)
Triple-schedule_all cluster (n ∷ ns) names =
    Triple-bind
      (Triple-weaken (λ w p. p) (λ a w p. p.0) (λ e w p. p)
        (Triple-gets {P = Sure (Backs names)} {E = λ e w. ⊥} (λ w. w.now)))
      λ now.
        Triple-bind (Triple-attempt {F = λ e w. ⊥} (Triple-insert-Sure cluster n now names)) λ r.
          Triple-after_insert cluster ns r (
            Triple-weaken (λ w p. p) (λ u w p. rw append_assoc at p) (λ e w p. p)
              (Triple-schedule_all cluster ns (names ++ (n ∷ []))))

-- Every database that is effective and not decommissioned is backed up.
abbrev pub BacksAll : Db → World → Type 0
BacksAll d w =
    (n : String)
    → member n (map (λ r. r.dbname) (select has_backups d.instances)) ≡ true
    → member n (scheduled w.db) ≡ true

-- When its calls succeed, `ScheduleNewDatabaseBackups` returns no error, and every database that is
-- effective and not decommissioned has a schedule of backups then.
pub schedule_new_backups-BacksAll :
    (cluster : String) (d : Db)
    → Triple (Sure (λ w. w.db ≡ d)) (schedule_new_backups cluster) (λ u. BacksAll d) (λ e w. ⊥)
unfolding schedule_new_backups missing_databases
schedule_new_backups-BacksAll cluster d =
    Triple-bind
      (Triple-bind (Triple-call-Sure {P = λ w. w.db ≡ d} (λ w rs p. p))
        λ u. Triple-query-Sure {P = λ w. w.db ≡ d} (λ w rs p. p) (λ w. missing_databases w.db))
      λ names.
        Triple-weaken {P' = λ w. Sure (Backs (scheduled d)) w × (missing_databases d ≡ names)}
          (λ w p. ((ap scheduled p.0.0, p.0.1), ap missing_databases (sym p.0.0) ∙ p.1))
          (λ u w p. p) (λ e w p. p)
          (Triple-known λ same.
            Triple-weaken (λ w p. p) (λ u w p. all_backed same w p) (λ e w p. p)
              (Triple-schedule_all cluster names (scheduled d)))
  where
    all_backed :
        {names : List String}
        → missing_databases d ≡ names
        → (w : World) → Backs (scheduled d ++ names) w
        → BacksAll d w
    all_backed same w p n listed =
        rw (p, any-append, ← same)
          (member-except n (map (λ r. r.dbname) (select has_backups d.instances)) (scheduled d)
            listed)
