-- ===== src/Tasks/Below.antt =====
-- What all rows of a table keep under UPDATE, DELETE and INSERT.
use rdpg_boshrelease.Base.{
  ℕ, ◌<◌, Bool, true, false, List, [], ◌∷◌, ◌++◌, All, arith, if◌then◌else◌, set_where,
  delete_where,
}
use rdpg_boshrelease.World.{TaskRow}

pub All-set_where :
    (P : TaskRow → Type 0) (p : TaskRow → Bool) (g : TaskRow → TaskRow) (xs : List TaskRow)
    → ((r : TaskRow) → P r → P (g r))
    → All P xs
    → All P (set_where p g xs)
All-set_where P p g [] step h = tt
All-set_where P p g (x ∷ xs) step (hx, h) = (changed (p x), All-set_where P p g xs step h)
  where
    changed : (b : Bool) → P (if b then g x else x)
    changed true = step x hx
    changed false = hx

pub All-delete_where :
    (P : TaskRow → Type 0) (p : TaskRow → Bool) (xs : List TaskRow)
    → All P xs
    → All P (delete_where p xs)
All-delete_where P p [] h = tt
All-delete_where P p (x ∷ xs) (hx, h) = left (p x) (All-delete_where P p xs h)
  where
    left :
        (b : Bool)
        → All P (delete_where p xs)
        → All P (if b then delete_where p xs else x ∷ delete_where p xs)
    left true r = r
    left false r = (hx, r)

pub All-enqueued :
    (n m : ℕ) (xs : List TaskRow) (t : TaskRow)
    → n < m
    → t.id < m
    → All (λ (r : TaskRow). r.id < n) xs
    → All (λ (r : TaskRow). r.id < m) (xs ++ (t ∷ []))
All-enqueued n m [] t le ht h = (ht, tt)
All-enqueued n m (x ∷ xs) t le ht (hx, h) = (omega arith, All-enqueued n m xs t le ht h)
