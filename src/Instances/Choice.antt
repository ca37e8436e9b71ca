-- ===== src/Instances/Choice.antt =====
-- The database that `Provision` chooses, and its assignment.
use rdpg_boshrelease.Base.{
  ◌≤◌, ◌≡◌, refl, sym, ◌∙◌, subst, Bool-cases, inl, inr, true, false, ◌==◌, Option, none, some,
  List, [], ◌∷◌, leb, any, select, All, arith, eq_refl, false≢true,
}
use rdpg_boshrelease.World.{InstanceRow, Db}
use rdpg_boshrelease.Instances.Find.{is_available}
use rdpg_boshrelease.Instances.Assign.{older, oldest, next_available}
use rdpg_boshrelease.Instances.Lookup.{has_name}

-- `r` is in the table, it is available, and no available row is older.
abbrev pub IsChoice : Db → InstanceRow → Type 0
IsChoice d r =
    (is_available r ≡ true)
    × (has_name r.dbname d ≡ true)
    × All (λ s. is_available s ≡ true → r.created_at ≤ s.created_at) d.instances

-- no available row of the list is older
abbrev NoneOlder : InstanceRow → List InstanceRow → Type 0
NoneOlder r = All (λ s. is_available s ≡ true → r.created_at ≤ s.created_at)

NoneOlder-older :
    (x r : InstanceRow) (xs : List InstanceRow)
    → x.created_at ≤ r.created_at
    → NoneOlder r xs
    → NoneOlder x xs
NoneOlder-older x r [] le h = tt
NoneOlder-older x r (y ∷ xs) le h =
    (λ e. let k = h.0 e in omega arith, NoneOlder-older x r xs le h.1)

-- What an outcome of the query says of the table.
abbrev Chosen : List InstanceRow → Option InstanceRow → Type 0
Chosen xs none = any is_available xs ≡ false
Chosen xs (some r) =
    (is_available r ≡ true) × (any (λ s. s.dbname == r.dbname) xs ≡ true) × NoneOlder r xs

NoneOlder-none :
    (x : InstanceRow) (xs : List InstanceRow) → any is_available xs ≡ false → NoneOlder x xs
NoneOlder-none x [] e = tt
NoneOlder-none x (y ∷ xs) e = (λ k. absurd (ground arith), NoneOlder-none x xs (ground arith))

older-Chosen :
    (x : InstanceRow) (xs : List InstanceRow) (o : Option InstanceRow)
    → is_available x ≡ true
    → Chosen xs o
    → Chosen (x ∷ xs) (older x o)
older-Chosen x xs none e h = (e, rw eq_refl refl, (λ k. omega arith, NoneOlder-none x xs h))
older-Chosen x xs (some r) e h = elim (Bool-cases (leb x.created_at r.created_at)) [
  | inl le ↦
      rw le (e, rw eq_refl refl, (λ k. omega arith, NoneOlder-older x r xs (ground arith) h.2))
  | inr gt ↦ rw gt (h.0, rw h.1 (ground arith), (λ k. ground arith, h.2))
]

skipped-Chosen :
    (x : InstanceRow) (xs : List InstanceRow) (o : Option InstanceRow)
    → is_available x ≡ false
    → Chosen xs o
    → Chosen (x ∷ xs) o
skipped-Chosen x xs none e h = rw e h
skipped-Chosen x xs (some r) e h =
    (h.0, rw h.1 (ground arith), (λ k. absurd (false≢true (sym e ∙ k)), h.2))

Chosen-oldest : (xs : List InstanceRow) → Chosen xs (oldest (select is_available xs))
Chosen-oldest [] = refl
Chosen-oldest (x ∷ xs) = elim (Bool-cases (is_available x)) [
  | inl e ↦ rw e (older-Chosen x xs (oldest (select is_available xs)) e (Chosen-oldest xs))
  | inr e ↦ rw e (skipped-Chosen x xs (oldest (select is_available xs)) e (Chosen-oldest xs))
]

-- The row that the query of `Provision` yields is in the table, its database is available, that is
-- unassigned, effective and not ineffective, and no available one was created earlier.
pub next_available-IsChoice : (d : Db) (r : InstanceRow) → next_available d ≡ some r → IsChoice d r
next_available-IsChoice d r e = subst (Chosen d.instances) e (Chosen-oldest d.instances)
