-- ===== src/Pg/Waiting.antt =====
-- The loop of `BDRGroupJoin` ends.
use rdpg_boshrelease.Base.{
  ℕ, zero, suc, String, ◌≡◌, refl, false, ◌∷◌, member, arith, sym, subst, ◌∙◌, ◌⊎◌, inl, inr,
  if◌then◌else◌, ◌==◌,
}
use rdpg_boshrelease.World.{World, Server, Result, ok, err, panics, hangs, sleep, ◌>>◌}
use rdpg_boshrelease.World.Triple.{
  Triple, Triple-at, Post, Triple-pure, Triple-raise, Triple-if, Triple-bind, Triple-step,
  Triple-attempt, Triple-weaken,
}
use rdpg_boshrelease.World.Measure.{Few, Triple-call_measured, Triple-call-Few}
use rdpg_boshrelease.Pg.Conn.{Pg, connect, set_database, set, set_property, pg_uri, pg_dsn}
use rdpg_boshrelease.Pg.Statements.{Change, changed, refused, store, exec_server, enter_group}
use rdpg_boshrelease.Pg.Groups.{is_conflict, join_again, join_wait, bdr_group_join}
use rdpg_boshrelease.Pg.Ensures.{Servers, Applied}

Triple-exec_server-Few :
    (s : String → Server) (n : ℕ) (ip : String) (f : Server → Change)
    → Triple
        (λ w. Servers s w × Few n w)
        (exec_server ip f)
        (λ u w. Applied s ip f w.servers × Few n w)
        (λ e. Servers s)
unfolding exec_server
Triple-exec_server-Few s n ip f =
    Triple-bind (Triple-call-Few n (λ w rs h. h))
      λ u. record { at = λ w h. go w h (f (w.servers ip)) refl }
  where
    go :
        (w : World)
        → (w.servers ≡ s) × Few n w
        → (c : Change) → f (w.servers ip) ≡ c
        → Post
            (λ (u : Unit {0}) w. Applied s ip f w.servers × Few n w)
            (λ e. Servers s)
            (store ip c w).0
            (store ip c w).1
    go w h (changed t) e = ((t, rw (← h.0) e, rw h.0), h.1)
    go w h (refused x) e = h.0

Triple-sleep_measured :
    (s : String → Server) (k n : ℕ)
    → Triple (λ w. Servers s w × Few n w) (sleep k) (λ u w. Servers s w × Few n w) (λ e w. ⊥)
unfolding sleep
Triple-sleep_measured s k n = record { at = λ w h. ground arith }

Triple-join_again :
    (s : String → Server) (fuel : ℕ)
    → Triple
        (λ w. Servers s w × Few fuel w)
        (join_wait fuel)
        (λ u. Servers s)
        (λ e w. Servers s w × (is_conflict e ≡ false))
    → (r : Result (Unit {0}))
    → Triple
        (λ w.
          Post
            (λ (u : Unit {0}) w. Servers s w × Few (suc fuel) w)
            (λ e w. Servers s w × Few fuel w)
            r
            w)
        (join_again r (do sleep 3; join_wait fuel))
        (λ u. Servers s)
        (λ e w. Servers s w × (is_conflict e ≡ false))
Triple-join_again s fuel rest (ok u) = Triple-pure tt λ w h. h.0
Triple-join_again s fuel rest (err e) =
    Triple-if (is_conflict e) _ _
      (λ c. Triple-step (Triple-sleep_measured s 3 fuel) (λ x w h. absurd h) λ u. rest)
      (λ c. Triple-raise e λ w h. (h.0, c))
Triple-join_again s fuel rest panics = record { at = λ w h. absurd h }
Triple-join_again s fuel rest hangs = record { at = λ w h. absurd h }

-- Fuel above the number of replies that are left is enough for the loop.
Triple-join_wait :
    (s : String → Server) (fuel : ℕ)
    → Triple
        (λ w. Servers s w × Few fuel w)
        (join_wait fuel)
        (λ u. Servers s)
        (λ e w. Servers s w × (is_conflict e ≡ false))
unfolding join_wait
Triple-join_wait s zero = record { at = λ w h. absurd (omega (arith, h.1)) }
Triple-join_wait s (suc fuel) =
    Triple-bind (Triple-attempt (Triple-call_measured {P = Servers s} fuel (λ w rs h. h)))
      (Triple-join_again s fuel (Triple-join_wait s fuel))

Triple-connect-Few :
    (s : String → Server) (n : ℕ) (p : Pg)
    → Triple
        (λ w. Servers s w × Few n w)
        (connect p)
        (λ u w. Servers s w × Few n w)
        (λ e. Servers s)
unfolding connect
Triple-connect-Few s n p = Triple-call-Few n (λ w rs h. h)

-- The node is in the BDR group of its database, the servers being otherwise as they were.
abbrev pub Entered : (String → Server) → String → String → (String → Server) → Type 0
Entered s ip d s' =
    (member d (s ip).groups ≡ false)
    × (s'
        ≡ (λ other. if other == ip then record (s ip) { groups = d ∷ (s ip).groups } else s other))

enter_group-Entered :
    (s s' : String → Server) (ip d : String) → Applied s ip (enter_group d) s' → Entered s ip d s'
unfolding enter_group
enter_group-Entered s s' ip d (t, e, at_ip) =
    let absent : member d (s ip).groups ≡ false = ground arith in
    let same : t ≡ record (s ip) { groups = d ∷ (s ip).groups } = ground arith in
    (absent, at_ip ∙ rw same)

-- With more fuel than replies that are left, `BDRGroupJoin` ends, however often the database
-- cancels the wait. If it returns no error the node has entered the group, which it was not in.
-- If it returns an error, either no server has changed, or the node has entered the group and the
-- wait for it failed with an error that is not worth another try.
pub bdr_group_join-Entered :
    (fuel : ℕ) (p target : Pg) (node_name d : String) (s : String → Server)
    → Triple
        (λ w. Servers s w × Few fuel w)
        (bdr_group_join fuel p node_name d target)
        (λ u w. Entered s p.ip d w.servers)
        (λ e w. (w.servers ≡ s) ⊎ (Entered s p.ip d w.servers × (is_conflict e ≡ false)))
unfolding bdr_group_join set_database set set_property pg_uri pg_dsn
bdr_group_join-Entered fuel p target node_name d s =
    Triple-step (Triple-connect-Few s fuel _) (λ e w h. inl h)
      λ x.
        Triple-step (Triple-exec_server-Few s fuel p.ip (enter_group d)) (λ e w h. inl h)
          λ y. Triple-at λ w h.
            let entered = enter_group-Entered s w.servers p.ip d h.0 in
            Triple-weaken {P' = λ v. Servers w.servers v × Few fuel v} (λ v e. (rw e, rw e h.1))
              (λ u v k. subst (Entered s p.ip d) (sym k) entered)
              (λ e v k. inr (subst (Entered s p.ip d) (sym k.0) entered, k.1))
              (Triple-join_wait w.servers fuel)
