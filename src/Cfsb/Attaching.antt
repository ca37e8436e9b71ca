-- ===== src/Cfsb/Attaching.antt =====
-- What PUT of a binding stores and answers.
use rdpg_boshrelease.Base.{
  String, ◌≡◌, refl, subst, true, false, ◌==◌, ◌⊎◌, inl, inr, Option, none, some, List, first,
  any_of_first, first-none, to_lower,
}
use rdpg_boshrelease.World.{
  World, InstanceRow, BindingRow, Db, Error, no_rows, message, IsMessage, Result, ok, err, panics,
  hangs, error_of, return_error, pure, ◌>>◌, attempt, ◌>>=◌,
}
use rdpg_boshrelease.World.Triple.{
  Post, Triple, Stable, Triple-pure, Triple-raise, Triple-if, Triple-given, Triple-weaken,
  Triple-step, Triple-bind, Triple-attempt, Triple-call, Triple-get_row,
}
use rdpg_boshrelease.World.Holding.{Holds, Triple-statement}
use rdpg_boshrelease.Instances.{column_is, scanned, scan_assigned, find_by_instance_id}
use rdpg_boshrelease.Cfsb.Bindings.{
  Credentials, Binding, binding_named, find_binding, find_credentials, insert_credentials,
  insert_if_unknown, create_credentials, after_create, insert_binding, bind_if_unknown,
}
use rdpg_boshrelease.Cfsb.Storing.{is_bound, create_credentials_new, lowered}

-- Reading a row leaves alone what does not speak of the replies.
module _ {P : World → Type 0} (stable : Stable P) where
  Triple-scanned_keeps : (o : Option String) → Triple P (scanned o) (λ s. P) (λ e. P)
  Triple-scanned_keeps none = Triple-raise _ λ w p. p
  Triple-scanned_keeps (some s) = Triple-pure s λ w p. p

  pub Triple-find_keeps : (id : String) → Triple P (find_by_instance_id id) (λ i. P) (λ e. P)
  unfolding find_by_instance_id
  Triple-find_keeps id =
      Triple-step (Triple-call stable) (λ e w p. p.1)
        λ u.
          Triple-step
            (Triple-get_row stable
              (λ w. first (λ r. column_is r.instance_id (to_lower id)) w.db.instances))
            (λ e w p. p.0) λ r. Triple-weaken (λ w p. p.0) (λ i w p. p) (λ e w p. p) (fields r)
    where
      fields : (r : InstanceRow) → Triple P (scan_assigned r) (λ i. P) (λ e. P)
      fields r = Triple-bind (Triple-scanned_keeps r.instance_id) λ a.
          Triple-bind (Triple-scanned_keeps r.service_id) λ b.
            Triple-bind (Triple-scanned_keeps r.plan_id) λ c.
              Triple-bind (Triple-scanned_keeps r.organization_id)
                λ o. Triple-bind (Triple-scanned_keeps r.space_id) λ s. Triple-pure _ λ w p. p

module _ (d : Db) (h : List String) where
  -- A binding that is not found is not in the table, and its id is not empty.
  abbrev pub Unfound : String → Error → World → Type 0
  Unfound id e w = Holds d h w × (e ≡ no_rows → (is_bound id d ≡ false) × ((id == "") ≡ false))

  pub Triple-find_binding :
      (id : String)
      → Triple
          (Holds d h)
          (find_binding id)
          (λ r w. Holds d h w × (is_bound id d ≡ true))
          (Unfound id)
  unfolding find_binding
  Triple-find_binding id =
      Triple-if (id == "") _ _ (λ k. Triple-raise _ λ w p. (p, λ q. absurd cc))
        (λ k.
          Triple-step (Triple-call {P = Holds d h} (λ w rs p. p))
            (λ e w p. (p.1, λ q. absurd (subst IsMessage q p.0)))
            λ u.
              Triple-weaken (λ w p. p)
                (λ r w p. (p.0, any_of_first _ d.bindings r (rw p.0.0 at p.1)))
                (λ e w p. (p.0, λ q. (first-none _ d.bindings (rw p.0.0 at (p.1 q)), k)))
                (Triple-get_row {P = Holds d h} (λ w rs p. p) (λ w. binding_named id w.db)))

  -- The credentials are stored, or nothing is.
  abbrev pub Stored : Credentials → World → Type 0
  Stored c w = Holds d h w ⊎ Holds (insert_credentials c d) h w

  Triple-create_credentials :
      (c : Credentials) → Triple (Holds d h) (create_credentials c) (λ u. Stored c) (λ e. Stored c)
  unfolding create_credentials find_credentials
  Triple-create_credentials c =
      Triple-step (Triple-call (λ w rs p. p)) (λ e w p. inl p.1)
        λ u. Triple-bind (Triple-attempt found) go
    where
      found : Triple (Holds d h) (find_credentials c.binding_id) (λ r. Holds d h) (λ e. Holds d h)
      found =
          Triple-if (c.binding_id == "") _ _ (λ k. Triple-raise _ λ w p. p)
            (λ k.
              Triple-step (Triple-call {P = Holds d h} (λ w rs p. p)) (λ e w p. p.1)
                λ u.
                  Triple-weaken (λ w p. p) (λ r w p. p.0) (λ e w p. p.0)
                    (Triple-get_row {P = Holds d h} (λ w rs p. p)
                      (λ w. binding_named c.binding_id w.db)))

      go :
          (r : Result BindingRow)
          → Triple
              (λ w. Post (λ (r : BindingRow). Holds d h) (λ e. Holds d h) r w)
              (insert_if_unknown c r)
              (λ u. Stored c)
              (λ e. Stored c)
      go (ok r) = Triple-pure _ λ w p. inl p
      go (err no_rows) =
          Triple-step (Triple-statement d h (insert_credentials c)) (λ e w p. inl p)
            λ u. Triple-pure c λ w p. inr p
      go (err (message e)) = Triple-raise _ λ w p. inl p
      go panics = record { at = λ w p. absurd p }
      go hangs = record { at = λ w p. absurd p }

  -- The binding is in the table: it was, or it is new, and then its credentials may have the ids
  -- as they are stored.
  abbrev pub Bound : Binding → Credentials → Credentials → World → Type 0
  Bound b c changed w =
      (Holds d h w × ((is_bound b.binding_id d ≡ true) × (changed ≡ c)))
      ⊎ (Holds (insert_binding b d) h w
          × ((is_bound b.binding_id d ≡ false) × ((changed ≡ lowered b c) ⊎ (changed ≡ c))))

  -- After an error it is not, and the credentials may be in theirs.
  abbrev pub Unbound : Binding → Credentials → World → Type 0
  Unbound b c w =
      Holds d h w ⊎ (Holds (insert_credentials c d) h w × (is_bound b.binding_id d ≡ false))

  pub Triple-bind_if_unknown :
      (b : Binding) (c : Credentials) (found : Result BindingRow)
      → c.binding_id ≡ b.binding_id
      → Triple
          (λ w.
            Post
              (λ (r : BindingRow) w. Holds d h w × (is_bound b.binding_id d ≡ true))
              (Unfound b.binding_id)
              found
              w)
          (bind_if_unknown b c found)
          (λ changed. Bound b c changed)
          (λ e. Unbound b c)
  Triple-bind_if_unknown b c (ok r) same = Triple-pure c λ w p. inl (p.0, (p.1, refl))
  Triple-bind_if_unknown b c (err (message e)) same = Triple-raise _ λ w p. inl p.0
  Triple-bind_if_unknown b c panics same = record { at = λ w p. absurd p }
  Triple-bind_if_unknown b c hangs same = record { at = λ w p. absurd p }
  Triple-bind_if_unknown b c (err no_rows) same = Triple-given λ v q.
      Triple-bind
        (Triple-attempt (
          Triple-weaken (λ w p. p.0) (λ u w p. p) (λ e w p. p)
            (Triple-statement d h (insert_binding b))))
        (go (q.1 refl).0 (q.1 refl).1)
    where
      go :
          is_bound b.binding_id d ≡ false
          → (b.binding_id == "") ≡ false
          → (r : Result (Unit {0}))
          → Triple
              (λ w. Post (λ (u : Unit {0}). Holds (insert_binding b d) h) (λ e. Holds d h) r w)
              (do
                created ← attempt (create_credentials c)
                changed ← after_create c created
                return_error (error_of r)
                pure changed)
              (λ changed. Bound b c changed)
              (λ e. Unbound b c)
      go new named (ok u) =
          Triple-bind (Triple-attempt (create_credentials_new b c d h named same new)) λ created.
            Triple-bind (after created) λ changed.
              Triple-bind
                {R = λ (v : Unit {0}) w.
                  Holds (insert_binding b d) h w × ((changed ≡ lowered b c) ⊎ (changed ≡ c))}
                (Triple-pure tt λ w p. p) λ v. Triple-pure changed λ w p. inr (p.0, (new, p.1))
        where
          after :
              (created : Result Credentials)
              → Triple
                  (λ w.
                    Post
                      (λ changed w. Holds (insert_binding b d) h w × (changed ≡ lowered b c))
                      (λ e. Holds (insert_binding b d) h)
                      created
                      w)
                  (after_create c created)
                  (λ changed w.
                    Holds (insert_binding b d) h w × ((changed ≡ lowered b c) ⊎ (changed ≡ c)))
                  (λ e. Unbound b c)
          after (ok changed) = Triple-pure _ λ w p. (p.0, inl p.1)
          after (err e) = Triple-pure _ λ w p. (p, inr refl)
          after panics = record { at = λ w p. absurd p }
          after hangs = record { at = λ w p. absurd p }
      go new named (err e) = Triple-bind (Triple-attempt (Triple-create_credentials c)) λ created.
          Triple-bind (after created) λ changed.
            Triple-bind {R = λ (v : Unit {0}) w. ⊥} {f = λ v. pure changed}
              (Triple-raise e λ w p. elim p [ inl q ↦ inl q | inr q ↦ inr (q, new) ])
              λ v. record { at = λ w p. absurd p }
        where
          after :
              (created : Result Credentials)
              → Triple
                  (λ w. Post (λ (changed : Credentials). Stored c) (λ e. Stored c) created w)
                  (after_create c created)
                  (λ changed. Stored c)
                  (λ e. Unbound b c)
          after (ok changed) = Triple-pure _ λ w p. p
          after (err x) = Triple-pure _ λ w p. p
          after panics = record { at = λ w p. absurd p }
          after hangs = record { at = λ w p. absurd p }
      go new named panics = record { at = λ w p. absurd p }
      go new named hangs = record { at = λ w p. absurd p }
