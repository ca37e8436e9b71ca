-- ===== src/Tasks/Backing.antt =====
-- The schedules of backups: each database once, and none left out.
use rdpg_boshrelease.Base.{
  ℕ, String, ◌≡◌, refl, sym, ap, subst, ◌∙◌, inl, inr, true, false, ◌||◌, ◌==◌, Option, none, some,
  List, [], ◌∷◌, ◌++◌, map, select, member, any-append, All, arith, eq_iff, Bool-cases,
}
use rdpg_boshrelease.World.{
  ScheduleRow, Db, World, Error, Result, ok, err, panics, hangs, error_of, return_error,
}
use rdpg_boshrelease.World.Triple.{
  Post, Triple, Triple-pure, Triple-raise, Triple-weaken, Triple-step, Triple-bind, Triple-attempt,
  Triple-call, Triple-query, Triple-gets, Triple-exec_db,
}
use rdpg_boshrelease.Tasks.Maintenance.{exec_query}
use rdpg_boshrelease.Tasks.Backups.{
  except, is_backup, scheduled, missing_databases, insert_schedule, schedule_each,
  schedule_new_backups,
}

-- no text twice
abbrev pub Unique : List String → Type 0
Unique [] = Unit
Unique (x ∷ xs) = (member x xs ≡ false) × Unique xs

-- none of `xs` is in `ys`
abbrev Apart : List String → List String → Type 0
Apart xs ys = All (λ x. member x ys ≡ false) xs

Unique-append :
    (xs : List String) (y : String) → member y xs ≡ false → Unique xs → Unique (xs ++ (y ∷ []))
Unique-append [] y new old = (refl, tt)
Unique-append (x ∷ xs) y new old =
    let apart : (x == y) ≡ false = ground (arith, eq_iff x y, eq_iff y x) in
    (rw (any-append, old.0, apart), Unique-append xs y (ground arith) old.1)

Apart-cons : (xs ys : List String) (y : String) → Apart xs (y ∷ ys) → Apart xs ys
Apart-cons [] ys y h = tt
Apart-cons (x ∷ xs) ys y (hx, h) = (ground arith, Apart-cons xs ys y h)

Apart-head : (xs ys : List String) (y : String) → Apart xs (y ∷ ys) → member y xs ≡ false
Apart-head [] ys y h = refl
Apart-head (x ∷ xs) ys y (hx, h) = ground (arith, Apart-head xs ys y h, eq_iff x y, eq_iff y x)

except-Apart : (xs ys : List String) → Apart (except xs ys) ys
unfolding except
except-Apart [] ys = tt
except-Apart (x ∷ xs) ys = elim (Bool-cases (member x ys)) [
  | inl known ↦ rw known (except-Apart xs ys)
  | inr new ↦ rw new (new, Apart-cons _ ys x (except-Apart xs (x ∷ ys)))
]

except-Unique : (xs ys : List String) → Unique (except xs ys)
unfolding except
except-Unique [] ys = tt
except-Unique (x ∷ xs) ys = elim (Bool-cases (member x ys)) [
  | inl known ↦ rw known (except-Unique xs ys)
  | inr new ↦ rw new (Apart-head _ ys x (except-Apart xs (x ∷ ys)), except-Unique xs (x ∷ ys))
]

-- What is in the first list is in the second or in the difference.
pub member-except :
    (n : String) (xs ys : List String)
    → member n xs ≡ true
    → (member n ys || member n (except xs ys)) ≡ true
unfolding except
member-except n [] ys h = cc
member-except n (x ∷ xs) ys h =
    ground (arith, eq_iff n x, member-except n xs ys, member-except n xs (x ∷ ys))

select-snoc :
    (r : ScheduleRow) (xs : List ScheduleRow)
    → is_backup r ≡ true
    → map (λ s. s.task_data) (select is_backup (xs ++ (r ∷ [])))
      ≡ map (λ s. s.task_data) (select is_backup xs) ++ (r.task_data ∷ [])
select-snoc r [] h = rw h
select-snoc r (x ∷ xs) h = elim (Bool-cases (is_backup x)) [
  | inl counts ↦ rw (counts, select-snoc r xs h)
  | inr other ↦ rw (other, select-snoc r xs h)
]

pub scheduled-insert_schedule :
    (cluster dbname : String) (now : ℕ) (d : Db)
    → scheduled (insert_schedule cluster dbname now d) ≡ scheduled d ++ (dbname ∷ [])
unfolding insert_schedule
scheduled-insert_schedule cluster dbname now d = select-snoc _ d.schedules refl

-- The databases that are backed up.
abbrev pub Backs : List String → World → Type 0
Backs names w = scheduled w.db ≡ names

-- Each of them once.
abbrev pub BacksOnce : World → Type 0
BacksOnce w = Unique (scheduled w.db)

Triple-insert :
    (cluster n : String) (now : ℕ) (names : List String)
    → Triple
        (Backs names)
        (exec_query (insert_schedule cluster n now))
        (λ u. Backs (names ++ (n ∷ [])))
        (λ e. Backs names)
Triple-insert cluster n now names =
    Triple-step (Triple-call {P = Backs names} (λ w rs p. p)) (λ e w p. p.1)
      λ u.
        Triple-weaken (λ w p. p) (λ u w p. p) (λ e w p. p.1)
          (Triple-exec_db {P = Backs names} (λ w rs p. p) {Q = Backs (names ++ (n ∷ []))} _
            (λ w p. scheduled-insert_schedule cluster n now w.db ∙ ap (λ xs. xs ++ (n ∷ [])) p))

Triple-returned :
    (o : Option Error) (names : List String)
    → Triple (Backs names) (return_error o) (λ u. Backs names) (λ e. Backs names)
Triple-returned none names = Triple-pure tt λ w p. p
Triple-returned (some e) names = Triple-raise e λ w p. p

Apart-snoc :
    (xs ys : List String) (y : String)
    → Apart xs ys
    → member y xs ≡ false
    → Apart xs (ys ++ (y ∷ []))
Apart-snoc [] ys y h new = tt
Apart-snoc (x ∷ xs) ys y (hx, h) new =
    let apart : (x == y) ≡ false = ground (arith, eq_iff x y, eq_iff y x) in
    (rw (any-append, hx, apart), Apart-snoc xs ys y h (ground arith))

-- the outcome of an INSERT, and the rest of the loop
Triple-inserted :
    (cluster n : String) (names ns : List String) (r : Result (Unit {0}))
    → ((e : Option Error)
        → Triple
            (Backs (names ++ (n ∷ [])))
            (schedule_each cluster e ns)
            (λ u. BacksOnce)
            (λ e. BacksOnce))
    → ((e : Option Error)
        → Triple (Backs names) (schedule_each cluster e ns) (λ u. BacksOnce) (λ e. BacksOnce))
    → Triple
        (λ w. Post (λ (u : Unit {0}). Backs (names ++ (n ∷ []))) (λ e. Backs names) r w)
        (schedule_each cluster (error_of r) ns)
        (λ u. BacksOnce)
        (λ e. BacksOnce)
Triple-inserted cluster n names ns (ok u) t f = t none
Triple-inserted cluster n names ns (err e) t f = f (some e)
Triple-inserted cluster n names ns panics t f = record { at = λ w p. absurd p }
Triple-inserted cluster n names ns hangs t f = record { at = λ w p. absurd p }

Triple-schedule_each :
    (cluster : String) (ns names : List String) (e : Option Error)
    → Unique names
    → Unique ns
    → Apart ns names
    → Triple (Backs names) (schedule_each cluster e ns) (λ u. BacksOnce) (λ e. BacksOnce)
unfolding schedule_each
Triple-schedule_each cluster [] names e old new apart =
    Triple-weaken (λ w p. p) (λ u w p. subst Unique (sym p) old) (λ e w p. subst Unique (sym p) old)
      (Triple-returned e names)
Triple-schedule_each cluster (n ∷ ns) names e old (fresh, new) (absent, apart) =
    Triple-bind
      (Triple-weaken (λ w p. p) (λ a w p. p.0) (λ e w p. p)
        (Triple-gets {P = Backs names} {E = λ e. BacksOnce} (λ w. w.now)))
      λ now.
        Triple-bind (Triple-attempt {F = λ e. BacksOnce} (Triple-insert cluster n now names)) λ r.
          Triple-inserted cluster n names ns r
            (λ x.
              Triple-schedule_each cluster ns (names ++ (n ∷ [])) x
                (Unique-append names n absent old) new (Apart-snoc ns names n apart fresh))
            (λ x. Triple-schedule_each cluster ns names x old new apart)

-- If no database has two schedules of backups, none has them after `ScheduleNewDatabaseBackups`,
-- with or without an error, whatever fails: it ends.
pub schedule_new_backups-BacksOnce :
    (cluster : String)
    → Triple BacksOnce (schedule_new_backups cluster) (λ u. BacksOnce) (λ e. BacksOnce)
unfolding schedule_new_backups missing_databases
schedule_new_backups-BacksOnce cluster =
    Triple-step
      (Triple-step (Triple-call {P = BacksOnce} (λ w rs p. p)) (λ e w p. p)
        λ u. Triple-query {P = BacksOnce} (λ w rs p. p) (λ w. missing_databases w.db))
      (λ e w p. p.1)
      λ names. record {
        at = λ w p.
            (Triple-schedule_each cluster names (scheduled w.db) none p.0
                (subst Unique p.1 (except-Unique _ (scheduled w.db)))
                (subst (λ ns. Apart ns (scheduled w.db)) p.1 (except-Apart _ (scheduled w.db)))).at
              w refl;
      }
