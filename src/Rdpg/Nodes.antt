-- ===== src/Rdpg/Nodes.antt =====
-- The waits for other nodes end.
use rdpg_boshrelease.Base.{
  ℕ, zero, suc, ◌+◌, ◌*◌, ◌≤◌, ◌≡◌, sym, ◌∙◌, String, true, false, List, [], ◌∷◌, ◌++◌, length,
  arith, if◌then◌else◌, false≢true,
}
use rdpg_boshrelease.World.{World, InstanceRow, pure, sleep, arrived, ◌>>◌}
use rdpg_boshrelease.World.Triple.{
  Triple, Triple-pure, Triple-if, Triple-weaken, Triple-step, Triple-query,
}
use rdpg_boshrelease.Rdpg.Cluster.{
  Daemon, Others, listed_nodes, cluster_ips, enough, nodes_wait, new_cluster,
  wait_for_cluster_nodes,
}

-- The catalog, and a time that is not far off.
abbrev pub Before : (String → List String) → ℕ → ℕ → World → Type 0
Before c t n w = (w.catalog ≡ c) × (t ≤ w.now + 2 * n)

Triple-sleep_nearer :
    (c : String → List String) (t n : ℕ)
    → Triple (Before c t (suc n)) (sleep 2) (λ u. Before c t n) (λ e w. ⊥)
unfolding sleep
Triple-sleep_nearer c t n = record { at = λ w p. go w w.arrivals p }
  where
    go :
        (w : World) (later : List (List InstanceRow))
        → Before c t (suc n) w
        → ((arrived later w).catalog ≡ c) × (t ≤ (arrived later w).now + 2 + 2 * n)
    go w [] p = (p.0, omega (arith, p.1))
    go w (rows ∷ later) p = (p.0, omega (arith, p.1))

module _ (d : Daemon) (o : Others) (c : String → List String) where
  -- the nodes that Consul lists at a moment
  abbrev pub nodes_at : ℕ → List String
  nodes_at m = c d.cluster_id ++ o.nodes d.cluster_id m

  -- From the moment `t` on there are enough.
  abbrev pub EnoughFrom : ℕ → Type 0
  EnoughFrom t = (m : ℕ) → t ≤ m → enough d (length (nodes_at m)) ≡ true

  abbrev pub HasEnough : World → Type 0
  HasEnough w = enough d (length (nodes_at w.now)) ≡ true

  -- a round that finds some nodes
  Triple-counted :
      (t n : ℕ) (ips : List String)
      → Triple
          (λ w. Before c t n w × (enough d (length (nodes_at w.now)) ≡ false))
          (do sleep 2; nodes_wait n d o)
          (λ u. HasEnough)
          (λ e w. w.catalog ≡ c)
      → Triple
          (λ w. Before c t n w × (nodes_at w.now ≡ ips))
          (if enough d (length ips) then pure tt else (do sleep 2; nodes_wait n d o))
          (λ u. HasEnough)
          (λ e w. w.catalog ≡ c)
  Triple-counted t n ips rest =
      Triple-if (enough d (length ips)) _ _ (λ met. Triple-pure tt λ w p. rw p.1 met)
        (λ missed. Triple-weaken (λ w p. (p.0, rw p.1 missed)) (λ u w p. p) (λ e w p. p) rest)

  -- the query of a round, and the rest of it
  Triple-round :
      (t n : ℕ)
      → Triple
          (λ w. Before c t n w × (enough d (length (nodes_at w.now)) ≡ false))
          (do sleep 2; nodes_wait n d o)
          (λ u. HasEnough)
          (λ e w. w.catalog ≡ c)
      → Triple (Before c t n) (nodes_wait (suc n) d o) (λ u. HasEnough) (λ e w. w.catalog ≡ c)
  unfolding nodes_wait cluster_ips listed_nodes
  Triple-round t n rest =
      Triple-step
        (Triple-query {P = Before c t n} (λ w rs p. p)
          (λ w. w.catalog d.cluster_id ++ o.nodes d.cluster_id w.now))
        (λ e w p. p.1.0)
        λ ips.
          Triple-weaken (λ w p. (p.0, rw p.0.0 at p.1)) (λ u w p. p) (λ e w p. p)
            (Triple-counted t n ips rest)

  Triple-nodes_wait :
      (t n : ℕ)
      → EnoughFrom t
      → Triple (Before c t n) (nodes_wait (suc n) d o) (λ u. HasEnough) (λ e w. w.catalog ≡ c)
  Triple-nodes_wait t zero from =
      Triple-round t zero
        (record { at = λ w p. absurd (false≢true (sym p.1 ∙ from w.now (omega (arith, p.0.1)))) })
  Triple-nodes_wait t (suc n) from = Triple-round t (suc n) (
      Triple-weaken (λ w p. p.0) (λ u w p. p) (λ e w p. p)
        (Triple-step (Triple-sleep_nearer c t n) (λ e w p. absurd p)
          λ u. Triple-nodes_wait t n from))

  -- The wait for the nodes of the cluster ends when enough of them are listed from some moment on
  -- and its fuel exceeds half of the seconds until then: it returns an error of Consul, or enough
  -- nodes are listed when it returns.
  pub wait_for_cluster_nodes-HasEnough :
      (t n : ℕ)
      → EnoughFrom t
      → Triple
          (Before c t n)
          (wait_for_cluster_nodes (suc n) d o)
          (λ u. HasEnough)
          (λ e w. w.catalog ≡ c)
  unfolding wait_for_cluster_nodes new_cluster listed_nodes
  wait_for_cluster_nodes-HasEnough t n from =
      Triple-step
        (Triple-step
          (Triple-query {P = Before c t n} (λ w rs p. p)
            (λ w. w.catalog d.cluster_id ++ o.nodes d.cluster_id w.now))
          (λ e w p. p.1) λ ips. Triple-pure _ λ w p. p.0)
        (λ e w p. p.0) λ ps. Triple-nodes_wait t n from
