-- ===== src/Tasks/Recording.antt =====
-- The history of backups tells which files are there.
use rdpg_boshrelease.Base.{
  ℕ, String, ◌≡◌, refl, sym, subst, eq_refl, ◌⊎◌, inl, inr, some, List, [], ◌∷◌, ◌++◌, ap,
}
use rdpg_boshrelease.World.{
  World, HistoryRow, Db, Error, Result, ok, err, panics, hangs, Exec, update, attempt, ◌>>=◌,
}
use rdpg_boshrelease.World.Triple.{
  Post, Triple, Triple-weaken, Triple-step, Triple-bind, Triple-attempt, Triple-call, Triple-gets,
  Triple-logged, Triple-exec_db,
}
use rdpg_boshrelease.Services.Writing.{Files, Node, Triple-write_file, Triple-run}
use rdpg_boshrelease.Tasks.Maintenance.{insert_history}
use rdpg_boshrelease.Tasks.Backups.{
  BackupParams, backup_path, history_of, create_file, record_file, back_up,
}

-- what holds of the database and the files before
Triple-node :
    {A : Type 0} {R : Db → Files → Type 0} {m : Exec A} {Q : A → World → Type 0}
    {E : Error → World → Type 0}
    → ((d : Db) (f : Files) → R d f → Triple (Node d f) m Q E)
    → Triple (λ w. R w.db w.files) m Q E
Triple-node t = record { at = λ w p. (t w.db w.files p).at w (refl, refl) }

-- the history with a row more
abbrev pub Recorded : List HistoryRow → HistoryRow → World → Type 0
Recorded before r w = (now : ℕ) × (w.db.history ≡ before ++ (record r { created_at = now } ∷ []))

Triple-insert_history :
    (d : Db) (f : Files) (r : HistoryRow)
    → Triple
        (Node d f)
        (insert_history r)
        (λ u w. Recorded d.history r w × (w.files ≡ f))
        (λ e. Node d f)
unfolding insert_history
Triple-insert_history d f r =
    Triple-bind
      (Triple-weaken (λ w p. p) (λ a w p. p.0) (λ e w p. p)
        (Triple-gets {P = Node d f} {E = λ e. Node d f} (λ w. w.now)))
      λ now.
        Triple-step (Triple-call {P = Node d f} (λ w rs p. p)) (λ e w p. p.1)
          λ u.
            Triple-weaken (λ w p. p) (λ u w p. p) (λ e w p. p.1)
              (Triple-exec_db {P = Node d f} (λ w rs p. p)
                {Q = λ w. Recorded d.history r w × (w.files ≡ f)} _
                (λ w p. (
                  (now, ap (λ (x : Db). x.history ++ (record r { created_at = now } ∷ [])) p.0),
                  p.1,
                )))

module _ (b : BackupParams) (extension options output : String) where
  Triple-create_file :
      (d : Db) (f : Files)
      → Triple
          (Node d f)
          (create_file b extension options output)
          (λ u. Node d (update f (backup_path b extension) (some output)))
          (λ e. Node d f)
  unfolding create_file
  Triple-create_file d f = Triple-bind (Triple-run d f _) λ u. Triple-write_file d f _ _

  -- A row for the file: "ok" when the file has the output, or "error".
  abbrev pub IsRecorded : List HistoryRow → World → Type 0
  IsRecorded before w =
      (Recorded before (history_of b extension "ok") w
        × (w.files (backup_path b extension) ≡ some output))
      ⊎ Recorded before (history_of b extension "error") w

  Triple-record_file :
      (d : Db) (f : Files) (r : Result (Unit {0}))
      → Triple
          (λ w.
            Post
              (λ (u : Unit {0}). Node d (update f (backup_path b extension) (some output)))
              (λ e. Node d f)
              r
              w)
          (record_file b extension r)
          (λ u. IsRecorded d.history)
          (λ e w. w.db.history ≡ d.history)
  Triple-record_file d f (ok u) =
      Triple-weaken (λ w p. p) (λ u w p. inl (p.0, rw (p.1, eq_refl)))
        (λ e w p. ap (λ (x : Db). x.history) p.0) (Triple-insert_history d _ _)
  Triple-record_file d f (err e) =
      Triple-weaken (λ w p. p) (λ u w p. inr p.0) (λ e w p. ap (λ (x : Db). x.history) p.0)
        (Triple-insert_history d f _)
  Triple-record_file d f panics = record { at = λ w p. absurd p }
  Triple-record_file d f hangs = record { at = λ w p. absurd p }

-- the history before, or with a row for the schema
abbrev pub HasSchema : BackupParams → List HistoryRow → List HistoryRow → Type 0
HasSchema b before after =
    (after ≡ before)
    ⊎ ((status : String) × ((now : ℕ) × (after
            ≡ before ++ (record (history_of b ".schema" status) { created_at = now } ∷ []))))

HasSchema-IsRecorded :
    (b : BackupParams) (options output : String) (before : List HistoryRow) (w : World)
    → IsRecorded b ".schema" options output before w
    → HasSchema b before w.db.history
HasSchema-IsRecorded b options output before w (inl p) = inr ("ok", p.0)
HasSchema-IsRecorded b options output before w (inr p) = inr ("error", p)

-- A row for the data, behind at most one for the schema.
abbrev pub IsBackedUp : (String → String) → BackupParams → List HistoryRow → World → Type 0
IsBackedUp output b before w =
    (middle : List HistoryRow) × (HasSchema b before middle
      × IsRecorded b ".data" "-a" (output ".data") middle w)

module _ (output : String → String) (b : BackupParams) where
  Triple-data :
      (before : List HistoryRow) (d : Db) (f : Files)
      → HasSchema b before d.history
      → Triple
          (Node d f)
          (do
            rows ← attempt (create_file b ".data" "-a" (output ".data"))
            record_file b ".data" rows)
          (λ u. IsBackedUp output b before)
          (λ e w. HasSchema b before w.db.history)
  Triple-data before d f schema =
      Triple-bind
        (Triple-attempt {F = λ e w. HasSchema b before w.db.history}
          (Triple-create_file b ".data" "-a" (output ".data") d f))
        λ r.
          Triple-weaken (λ w p. p) (λ u w p. (d.history, (schema, p)))
            (λ e w p. subst (HasSchema b before) (sym p) schema)
            (Triple-record_file b ".data" "-a" (output ".data") d f r)

  -- A backup returns, whatever fails. Without an error the history ends in a row for the file of the
  -- data, of status "error", or of status "ok" and then the file has what pg_dump wrote; before it
  -- there is at most one new row, for the file of the schema. After an error there is at most that
  -- one new row.
  pub back_up-IsBackedUp :
      (d : Db) (f : Files)
      → Triple
          (Node d f)
          (back_up output b)
          (λ u. IsBackedUp output b d.history)
          (λ e w. HasSchema b d.history w.db.history)
  unfolding back_up
  back_up-IsBackedUp d f =
      Triple-step (Triple-call {P = Node d f} (λ w rs p. p))
        (λ e w p. inl (ap (λ (x : Db). x.history) p.1.0))
        λ u.
          Triple-bind
            (Triple-attempt {F = λ e w. HasSchema b d.history w.db.history}
              (Triple-create_file b ".schema" "-c -s" (output ".schema") d f))
            λ r.
              Triple-bind
                (Triple-logged {Q = λ w. HasSchema b d.history w.db.history}
                  {E = λ e w. w.db.history ≡ d.history} (λ e w p. inl p)
                  (Triple-weaken (λ w p. p)
                    (λ u w p. HasSchema-IsRecorded b "-c -s" (output ".schema") d.history w p)
                    (λ e w p. p) (Triple-record_file b ".schema" "-c -s" (output ".schema") d f r)))
                λ v.
                  Triple-node {R = λ d' f'. HasSchema b d.history d'.history}
                    (Triple-data d.history)
