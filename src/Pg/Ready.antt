-- ===== src/Pg/Ready.antt =====
-- `WaitForRegClass` ends once the class is there, and not before.
use rdpg_boshrelease.Base.{
  ℕ, zero, suc, ◌+◌, ◌*◌, ◌≤◌, ◌<◌, String, ◌≡◌, ◌≢◌, refl, sym, ◌∙◌, subst, false≢true, true,
  false, Option, none, some, List, [], ◌∷◌, ◌==◌, length, arith,
}
use mathlib.Core.Option.{some-injective}
use rdpg_boshrelease.World.{
  World, InstanceRow, IsMessage, Result, ok, err, panics, hangs, query, sleep, arrived, ◌>>◌,
}
use rdpg_boshrelease.World.Triple.{
  Post, Triple, Triple-pure, Triple-if, Triple-weaken, Triple-bind, Triple-step, Triple-attempt,
  Triple-and, Triple-call,
}
use rdpg_boshrelease.World.Measure.{Few, Triple-call_measured, Triple-call_kept}
use rdpg_boshrelease.Pg.Conn.{Pg, connect}
use rdpg_boshrelease.Pg.Classes.{again_unless_named, class_wait, wait_for_reg_class}

-- The moment `t` is at most `m` sleeps away, and fewer than `k` replies are left.
abbrev pub Waits : ℕ → ℕ → ℕ → World → Type 0
Waits t m k w = (t ≤ w.now + 3 * m) × Few k w

Triple-sleep-Waits :
    (t m k : ℕ) → Triple (Waits t (suc m) k) (sleep 3) (λ u. Waits t m k) (λ e w. ⊥)
unfolding sleep
Triple-sleep-Waits t m k = record { at = λ w p. go w w.arrivals p }
  where
    go :
        (w : World) (later : List (List InstanceRow))
        → Waits t (suc m) k w
        → (t ≤ (arrived later w).now + 3 + 3 * m) × (length (arrived later w).replies < k)
    go w [] p = (omega (arith, p.0), p.1)
    go w (rows ∷ later) p = (omega (arith, p.0), p.1)

-- time that passes for nothing
Triple-sleep_later : (t m k : ℕ) → Triple (Waits t m k) (sleep 3) (λ u. Waits t m k) (λ e w. ⊥)
Triple-sleep_later t m k =
    Triple-weaken (λ w p. (omega (arith, p.0), p.1)) (λ u w p. p) (λ e w p. p)
      (Triple-sleep-Waits t m k)

module _ (to_regclass : World → Option String) (name : String) (t : ℕ) where
  -- The class is there from the moment `t` on.
  abbrev pub PresentFrom : Type 0
  PresentFrom = (w : World) → t ≤ w.now → to_regclass w ≡ some name

  -- PostgreSQL has the class, under a name that is not empty.
  abbrev pub IsReady : World → Type 0
  IsReady w = (x : String) × ((to_regclass w ≡ some x) × ((x == "") ≡ false))

  Triple-lookup :
      (m q : ℕ)
      → Triple
          (Waits t m (suc q))
          (query to_regclass)
          (λ o w. Waits t m (suc q) w × (to_regclass w ≡ o))
          (λ e. Waits t m q)
  unfolding query
  Triple-lookup m q =
      Triple-bind (Triple-call_measured {P = λ w. t ≤ w.now + 3 * m} q (λ w rs p. p))
        λ u. record { at = λ w p. (p, refl) }

  -- The wait with less fuel, for fewer sleeps or fewer replies.
  abbrev Rest : ℕ → Type 0
  Rest n =
      (m q : ℕ)
      → q + m < n
      → Triple (Waits t m (suc q)) (class_wait n to_regclass) (λ u. IsReady) (λ e w. ⊥)

  -- A query that yields no name, or an empty one, came before the moment.
  Triple-too_early :
      (n m q : ℕ) (o : Option String)
      → PresentFrom
      → Rest n
      → q + m < suc n
      → o ≢ some name
      → Triple
          (λ w. Waits t m (suc q) w × (to_regclass w ≡ o))
          (do sleep 3; class_wait n to_regclass)
          (λ u. IsReady)
          (λ e w. ⊥)
  Triple-too_early n zero q o present rest enough other = record {
    at = λ w p. absurd (other (sym p.1 ∙ present w (omega (arith, p.0.0))));
  }
  Triple-too_early n (suc m) q o present rest enough other =
      Triple-bind
        (Triple-weaken (λ w p. p.0) (λ u w p. p) (λ e w p. p) (Triple-sleep-Waits t m (suc q)))
        λ u. rest m q (omega arith)

  Triple-again :
      (n m q : ℕ)
      → PresentFrom
      → (name == "") ≡ false
      → Rest n
      → q + m < suc n
      → (r : Result (Option String))
      → Triple
          (λ w. Post (λ o w. Waits t m (suc q) w × (to_regclass w ≡ o)) (λ e. Waits t m q) r w)
          (again_unless_named r (do sleep 3; class_wait n to_regclass))
          (λ u. IsReady)
          (λ e w. ⊥)
  Triple-again n m q present named rest enough (ok none) =
      Triple-too_early n m q none present rest enough (λ e. cc)
  Triple-again n m q present named rest enough (ok (some x)) =
      Triple-if (x == "") _ _
        (λ empty. Triple-too_early n m q (some x) present rest enough λ e.
          false≢true (sym named ∙ subst (λ y. (y == "") ≡ true) (some-injective x name e) empty))
        (λ full. Triple-pure tt λ w p. (x, (p.1, full)))
  Triple-again n m zero present named rest enough (err e) = record {
    at = λ w p. absurd (omega (arith, p.1));
  }
  Triple-again n m (suc q) present named rest enough (err e) =
      Triple-bind (Triple-sleep_later t m (suc q)) λ u. rest m q (omega arith)
  Triple-again n m q present named rest enough panics = record { at = λ w p. absurd p }
  Triple-again n m q present named rest enough hangs = record { at = λ w p. absurd p }

  Triple-class_wait : PresentFrom → (name == "") ≡ false → (n : ℕ) → Rest n
  unfolding class_wait
  Triple-class_wait present named zero m q enough = record { at = λ w p. absurd (omega arith) }
  Triple-class_wait present named (suc n) m q enough =
      Triple-bind (Triple-attempt (Triple-lookup m q))
        (Triple-again n m q present named (Triple-class_wait present named n) enough)

  -- Let PostgreSQL have the class from the moment `t` on, under a name that is not empty, and let
  -- the fuel exceed the replies that are left and a third of the seconds until then. Then
  -- `WaitForRegClass` returns, however often the query fails. Without an error PostgreSQL has the
  -- class when it returns; an error that it returns is not `sql.ErrNoRows`.
  pub wait_for_reg_class-IsReady :
      (n m q : ℕ) (p : Pg)
      → PresentFrom
      → (name == "") ≡ false
      → q + m < n
      → Triple
          (Waits t m (suc q))
          (wait_for_reg_class n p to_regclass)
          (λ u. IsReady)
          (λ e w. IsMessage e)
  unfolding wait_for_reg_class connect
  wait_for_reg_class-IsReady n m q p present named enough =
      Triple-step
        (Triple-and (Triple-call {P = λ w. t ≤ w.now + 3 * m} (λ w rs k. k))
          (Triple-call_kept (suc q)))
        (λ e w k. k.0.0)
        λ u.
          Triple-weaken (λ w k. k) (λ x w k. k) (λ e w k. absurd k)
            (Triple-class_wait present named n m q enough)
