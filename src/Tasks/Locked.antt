-- ===== src/Tasks/Locked.antt =====
-- Tasks that no worker's query yields.
use rdpg_boshrelease.Base.{
  ℕ, ◌≡◌, ◌≢◌, refl, ◌∙◌, String, Bool, true, false, ◌&&◌, Option, none, some, List, [], ◌∷◌, ◌++◌,
  ◌⊎◌, inl, inr, eqb, leb, is_null, any, select, set_where, delete_where, All, arith, if◌then◌else◌,
  subst,
}
use mathlib.Core.Option.{some-injective}
use rdpg_boshrelease.World.{TaskRow, Db}
use rdpg_boshrelease.Tasks.Queue.{lock_task}
use rdpg_boshrelease.Tasks.Work.{Worker, eligible, newest, newer, delete_task, reset_task}

-- Every task with the id is locked by some worker.
abbrev is_open : ℕ → TaskRow → Bool
is_open id r = eqb r.id id && is_null r.locked_by

abbrev pub Locked : ℕ → Db → Type 0
Locked id d = any (is_open id) d.tasks ≡ false

pub Locked-lock_task : (my_ip : String) (now id : ℕ) (d : Db) → Locked id (lock_task my_ip now id d)
unfolding lock_task
Locked-lock_task my_ip now id d = go d.tasks
  where
    go :
        (xs : List TaskRow)
        → any (is_open id) (
            set_where
              (λ r. eqb r.id id)
              (λ r. record r { locked_by = some my_ip; processing_at = some now })
              xs)
          ≡ false
    go [] = refl
    go (x ∷ xs) = ground (arith, go xs)

-- The lock of another task, or of the same, unlocks none.
pub Locked-kept_by_lock :
    (my_ip : String) (now id other : ℕ) (d : Db)
    → Locked id d
    → Locked id (lock_task my_ip now other d)
unfolding lock_task
Locked-kept_by_lock my_ip now id other d h = go d.tasks h
  where
    go :
        (xs : List TaskRow)
        → any (is_open id) xs ≡ false
        → any (is_open id) (
            set_where
              (λ r. eqb r.id other)
              (λ r. record r { locked_by = some my_ip; processing_at = some now })
              xs)
          ≡ false
    go [] h = refl
    go (x ∷ xs) h = ground (arith, go xs)

pub Locked-delete_task : (id other : ℕ) (d : Db) → Locked id d → Locked id (delete_task other d)
unfolding delete_task
Locked-delete_task id other d h = go d.tasks h
  where
    go :
        (xs : List TaskRow)
        → any (is_open id) xs ≡ false
        → any (is_open id) (delete_where (λ r. eqb r.id other) xs) ≡ false
    go [] h = refl
    go (x ∷ xs) h = ground (arith, go xs)

-- The reset of another task.
pub Locked-reset_task :
    (id other : ℕ) (d : Db) → id ≢ other → Locked id d → Locked id (reset_task other d)
unfolding reset_task
Locked-reset_task id other d apart h = go d.tasks h
  where
    go :
        (xs : List TaskRow)
        → any (is_open id) xs ≡ false
        → any (is_open id) (
            set_where
              (λ r. eqb r.id other)
              (λ r. record r { locked_by = none; processing_at = none })
              xs)
          ≡ false
    go [] h = refl
    go (x ∷ xs) h = ground (arith, go xs)

pub any-snoc :
    (id : ℕ) (xs : List TaskRow) (t : TaskRow)
    → eqb t.id id ≡ false
    → any (is_open id) xs ≡ false
    → any (is_open id) (xs ++ (t ∷ [])) ≡ false
any-snoc id [] t ht h = ground arith
any-snoc id (x ∷ xs) t ht h = ground (arith, any-snoc id xs t ht)

-- What is newest is the first, or the newest of the others.
newest-cases :
    (x : TaskRow) (xs : List TaskRow) (r : TaskRow)
    → newest (x ∷ xs) ≡ some r
    → (x ≡ r) ⊎ (newest xs ≡ some r)
newest-cases x xs r e = go (newest xs) refl e
  where
    chosen :
        (s : TaskRow) (b : Bool)
        → leb s.created_at x.created_at ≡ b
        → newer x (some s) ≡ some r
        → newest xs ≡ some s
        → (x ≡ r) ⊎ (newest xs ≡ some r)
    chosen s false hb e es = inr (es ∙ subst (λ c. (if c then some x else some s) ≡ some r) hb e)
    chosen s true hb e es =
        inl (some-injective x r (subst (λ c. (if c then some x else some s) ≡ some r) hb e))

    go : (o : Option TaskRow) → newest xs ≡ o → newer x o ≡ some r → (x ≡ r) ⊎ (newest xs ≡ some r)
    go none en e = inl (some-injective x r e)
    go (some s) en e = chosen s (leb s.created_at x.created_at) refl e en

-- What a worker's query yields was in no worker's hands.
pub newest-any :
    (k : Worker) (node_type : String) (xs : List TaskRow) (r : TaskRow)
    → newest (select (eligible k node_type) xs) ≡ some r
    → any (is_open r.id) xs ≡ true
newest-any k nt [] r e = cc
newest-any k nt (x ∷ xs) r e = go (newest-any k nt xs r) (eligible k nt x) refl
  where
    rest : List TaskRow
    rest = select (eligible k nt) xs

    later_one : any (is_open r.id) xs ≡ true → any (is_open r.id) (x ∷ xs) ≡ true
    later_one h = ground arith

    this_one : eligible k nt x ≡ true → x ≡ r → any (is_open r.id) (x ∷ xs) ≡ true
    this_one h q = subst (λ s. any (is_open s.id) (x ∷ xs) ≡ true) q (ground arith)

    go :
        (newest rest ≡ some r → any (is_open r.id) xs ≡ true)
        → (b : Bool) → eligible k nt x ≡ b
        → any (is_open r.id) (x ∷ xs) ≡ true
    go ih false h = later_one (ih (subst (λ c. newest (if c then x ∷ rest else rest) ≡ some r) h e))
    go ih true h =
        elim (newest-cases x rest r
          (subst (λ c. newest (if c then x ∷ rest else rest) ≡ some r) h e)) [
            | inl q ↦ this_one h q
            | inr e' ↦ later_one (ih e')
          ]

-- What a worker's query yields has a property that all tasks have.
pub newest-All :
    (P : TaskRow → Type 0) (p : TaskRow → Bool) (xs : List TaskRow) (r : TaskRow)
    → All P xs
    → newest (select p xs) ≡ some r
    → P r
newest-All P p [] r h e = cc
newest-All P p (x ∷ xs) r (hx, h) e = go (newest-All P p xs r h) (p x) refl
  where
    rest : List TaskRow
    rest = select p xs

    go : (newest rest ≡ some r → P r) → (b : Bool) → p x ≡ b → P r
    go ih false b = ih (subst (λ c. newest (if c then x ∷ rest else rest) ≡ some r) b e)
    go ih true b =
        elim (newest-cases x rest r
          (subst (λ c. newest (if c then x ∷ rest else rest) ≡ some r) b e)) [
            | inl q ↦ subst P q hx
            | inr e' ↦ ih e'
          ]
