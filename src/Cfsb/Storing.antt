-- ===== src/Cfsb/Storing.antt =====
-- What the service broker stores of a binding.
use rdpg_boshrelease.Base.{
  String, ◌≡◌, refl, sym, ap, ◌∙◌, subst, Bool, true, false, ◌==◌, none, some, List, [], ◌∷◌, ◌++◌,
  first, any, first-none, any-append, to_lower, eq_refl, false≢true, arith,
}
use mathlib.Core.Option.{some-injective}
use rdpg_boshrelease.World.{
  BindingRow, Db, no_rows, message, IsMessage, Result, ok, err, panics, hangs,
}
use rdpg_boshrelease.World.Triple.{
  Post, Triple, Triple-pure, Triple-raise, Triple-weaken, Triple-step, Triple-bind, Triple-attempt,
  Triple-call, Triple-get_row,
}
use rdpg_boshrelease.World.Holding.{Holds}
use rdpg_boshrelease.Cfsb.Bindings.{
  Credentials, Binding, binding_named, find_credentials, insert_if_unknown, create_credentials,
  insert_binding, with_ids,
}

abbrev pub is_bound : String → Db → Bool
is_bound id d = any (λ r. r.binding_id == to_lower id) d.bindings

-- Where the binding is in its table, `Create` of its credentials stores nothing; without an error
-- they have the ids of its row.
pub create_credentials_bound :
    (c : Credentials) (d : Db) (h : List String)
    → (c.binding_id == "") ≡ false
    → is_bound c.binding_id d ≡ true
    → Triple
        (Holds d h)
        (create_credentials c)
        (λ changed w.
          Holds d h w
          × ((row : BindingRow) × ((binding_named c.binding_id d ≡ some row)
                × (changed ≡ with_ids c row))))
        (λ e. Holds d h)
unfolding create_credentials find_credentials
create_credentials_bound c d h named bound =
    Triple-step (Triple-call (λ w rs p. p)) (λ e w p. p.1)
      λ u. Triple-bind (Triple-attempt found) go
  where
    found :
        Triple
          (Holds d h)
          (find_credentials c.binding_id)
          (λ r w. Holds d h w × (binding_named c.binding_id d ≡ some r))
          (λ e w. Holds d h w × (e ≡ no_rows → binding_named c.binding_id d ≡ none))
    found = rw named (
        Triple-step (Triple-call {P = Holds d h} (λ w rs p. p))
          (λ e w p. (p.1, λ q. absurd (subst IsMessage q p.0)))
          λ u.
            Triple-weaken (λ w p. p) (λ r w p. (p.0, rw p.0.0 at p.1))
              (λ e w p. (p.0, λ q. rw p.0.0 at (p.1 q)))
              (Triple-get_row {P = Holds d h} (λ w rs p. p) (λ w. binding_named c.binding_id w.db)))

    go :
        (r : Result BindingRow)
        → Triple
            (λ w.
              Post
                (λ (r : BindingRow) w. Holds d h w × (binding_named c.binding_id d ≡ some r))
                (λ e w. Holds d h w × (e ≡ no_rows → binding_named c.binding_id d ≡ none))
                r
                w)
            (insert_if_unknown c r)
            (λ changed w.
              Holds d h w
              × ((row : BindingRow) × ((binding_named c.binding_id d ≡ some row)
                    × (changed ≡ with_ids c row))))
            (λ e. Holds d h)
    go (ok r) = Triple-pure _ λ w p. (p.0, (r, (p.1, refl)))
    go (err no_rows) = record {
      at = λ w p. absurd (false≢true (sym (first-none _ d.bindings (p.1 refl)) ∙ bound));
    }
    go (err (message e)) = Triple-raise _ λ w p. p.0
    go panics = record { at = λ w p. absurd p }
    go hangs = record { at = λ w p. absurd p }

inserted_bound : (b : Binding) (d : Db) → is_bound b.binding_id (insert_binding b d) ≡ true
unfolding insert_binding
inserted_bound b d = rw (any-append, eq_refl) (ground arith)

-- Once the row of a binding is inserted, `Create` of its credentials returns without storing them,
-- whether it returns an error or not: it looks for them in the table of bindings, where it finds
-- that row. The binding's id is not empty.
pub create_credentials-never :
    (b : Binding) (c : Credentials) (d : Db) (h : List String)
    → (b.binding_id == "") ≡ false
    → c.binding_id ≡ b.binding_id
    → Triple
        (Holds (insert_binding b d) h)
        (create_credentials c)
        (λ u. Holds (insert_binding b d) h)
        (λ e. Holds (insert_binding b d) h)
create_credentials-never b c d h named same =
    Triple-weaken (λ w p. p) (λ u w p. p.0) (λ e w p. p)
      (create_credentials_bound c (insert_binding b d) h (rw same named)
        (rw same (inserted_bound b d)))

-- the credentials with the ids as they are stored
abbrev pub lowered : Binding → Credentials → Credentials
lowered b c = record c { binding_id = to_lower b.binding_id; instance_id = to_lower b.instance_id }

first-append_absent :
    (p : BindingRow → Bool) (xs : List BindingRow) (x : BindingRow)
    → any p xs ≡ false
    → first p (xs ++ (x ∷ [])) ≡ first p (x ∷ [])
first-append_absent p [] x h = refl
first-append_absent p (y ∷ xs) x h = ground (arith, first-append_absent p xs x)

-- The row that is found is the new one.
new_found :
    (b : Binding) (d : Db) (row : BindingRow)
    → is_bound b.binding_id d ≡ false
    → binding_named b.binding_id (insert_binding b d) ≡ some row
    → (row.binding_id ≡ to_lower b.binding_id) × (row.instance_id ≡ to_lower b.instance_id)
unfolding insert_binding
new_found b d row new e = (ap (λ r. r.binding_id) (sym same), ap (λ r. r.instance_id) (sym same))
  where
    fresh : BindingRow
    fresh = record {
      id = d.next_id;
      instance_id = to_lower b.instance_id;
      binding_id = to_lower b.binding_id;
      ineffective_at = none;
    }

    is_it : first (λ r. r.binding_id == to_lower b.binding_id) (fresh ∷ []) ≡ some fresh
    is_it = rw eq_refl refl

    same : fresh ≡ row
    same =
        some-injective fresh row (sym is_it ∙ sym (first-append_absent _ d.bindings fresh new) ∙ e)

-- For a binding that was not in the table they have the ids as they are stored.
pub create_credentials_new :
    (b : Binding) (c : Credentials) (d : Db) (h : List String)
    → (b.binding_id == "") ≡ false
    → c.binding_id ≡ b.binding_id
    → is_bound b.binding_id d ≡ false
    → Triple
        (Holds (insert_binding b d) h)
        (create_credentials c)
        (λ changed w. Holds (insert_binding b d) h w × (changed ≡ lowered b c))
        (λ e. Holds (insert_binding b d) h)
create_credentials_new b c d h named same new =
    Triple-weaken (λ w p. p)
      (λ changed w p.
        let ids : (p.1.0.binding_id ≡ to_lower b.binding_id)
            × (p.1.0.instance_id ≡ to_lower b.instance_id) =
          new_found b d p.1.0 new (rw same at p.1.1.0) in
        (p.0, p.1.1.1 ∙ rw (ids.0, ids.1) refl))
      (λ e w p. p)
      (create_credentials_bound c (insert_binding b d) h (rw same named)
        (rw same (inserted_bound b d)))
