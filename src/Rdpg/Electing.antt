-- ===== src/Rdpg/Electing.antt =====
-- The first node of a cluster makes the BDR group, and tells the others its address.
use rdpg_boshrelease.Base.{
  String, ◌≡◌, refl, sym, ◌∙◌, ap, ◌⊎◌, inl, inr, Bool, true, false, ◌==◌, Bool-cases, eq_refl,
  Option, some, member, false≢true,
}
use rdpg_boshrelease.World.{World, Server, update}
use rdpg_boshrelease.World.Triple.{
  Post, Triple, Triple-known, Triple-pure, Triple-if, Triple-weaken, Triple-step, Triple-bind,
  Triple-call, Triple-query,
}
use rdpg_boshrelease.Pg.{
  new_pg, pg_uri, pg_dsn, set, set_property, set_database, connect, bdr_group_create, Change,
  changed, refused, store, exec_server, enter_group,
}
use rdpg_boshrelease.Rdpg.Cluster.{Daemon}
use rdpg_boshrelease.Rdpg.Bootstrap.{
  join_key, value_of, get_key, put_key, local_node_name, group_create,
}

abbrev pub Kv : Type 0
Kv = String → Option String

-- Consul's keys and the servers
abbrev pub Known : Kv → (String → Server) → World → Type 0
Known k s w = (w.kv ≡ k) × (w.servers ≡ s)

-- the server at an address is in the group
abbrev pub IsMember : String → World → Type 0
IsMember ip w = member "rdpg" (w.servers ip).groups ≡ true

-- A server that `enter_group` changes is in the group.
abbrev in_group : Change → Bool
in_group (changed t) = member "rdpg" t.groups
in_group (refused x) = false

is_changed : Change → Bool
is_changed (changed t) = true
is_changed (refused x) = false

enter_group-in_group :
    (x t : Server) → enter_group "rdpg" x ≡ changed t → member "rdpg" t.groups ≡ true
unfolding enter_group is_changed
enter_group-in_group x t e = elim (Bool-cases (member "rdpg" x.groups)) [
  | inl inside ↦ absurd (false≢true (ap is_changed (rw inside at e)))
  | inr outside ↦ sym (ap in_group (rw outside at e)) ∙ refl
]

module _ (k : Kv) (s : String → Server) where
  Triple-enter :
      (ip : String)
      → Triple
          (Known k s)
          (exec_server ip (enter_group "rdpg"))
          (λ u w. (w.kv ≡ k) × IsMember ip w)
          (λ e w. w.kv ≡ k)
  unfolding exec_server
  Triple-enter ip =
      Triple-step (Triple-call {P = Known k s} (λ w rs p. p)) (λ e w p. p.1.0)
        λ u. record { at = λ w p. go w p (enter_group "rdpg" (w.servers ip)) refl }
    where
      go :
          (w : World)
          → Known k s w
          → (c : Change) → enter_group "rdpg" (w.servers ip) ≡ c
          → Post
              (λ (u : Unit {0}) w. (w.kv ≡ k) × IsMember ip w)
              (λ e w. w.kv ≡ k)
              (store ip c w).0
              (store ip c w).1
      go w p (changed t) e = (p.0, rw eq_refl (enter_group-in_group (w.servers ip) t e))
      go w p (refused x) e = p.0

  -- The address that Consul keeps is there, and nothing changes; or it is not, and then the node is
  -- in the group and the address is its own.
  abbrev pub Elected : Daemon → World → Type 0
  Elected d w =
      (((value_of (k (join_key d)) == "") ≡ false) × Known k s w)
      ⊎ (((value_of (k (join_key d)) == "") ≡ true)
          × ((w.kv ≡ update k (join_key d) (some d.my_ip)) × IsMember d.my_ip w))

  Triple-put_key :
      (ip key v : String)
      → Triple
          (λ w. (w.kv ≡ k) × IsMember ip w)
          (put_key key v)
          (λ u w. (w.kv ≡ update k key (some v)) × IsMember ip w)
          (λ e w. w.kv ≡ k)
  unfolding put_key
  Triple-put_key ip key v =
      Triple-step (Triple-call {P = λ w. (w.kv ≡ k) × IsMember ip w} (λ w rs p. p)) (λ e w p. p.1.0)
        λ u. record { at = λ w p. (rw p.0, p.1) }

  Triple-bdr_group_create :
      (d : Daemon) (name : String)
      → Triple
          (Known k s)
          (bdr_group_create (new_pg d.my_ip d.pg_port "rdpg" "rdpg" d.pg_pass) name "rdpg")
          (λ u w. (w.kv ≡ k) × IsMember d.my_ip w)
          (λ e w. w.kv ≡ k)
  unfolding bdr_group_create connect set_database set set_property pg_uri pg_dsn new_pg
  Triple-bdr_group_create d name =
      Triple-step (Triple-call {P = Known k s} (λ w rs p. p)) (λ e w p. p.1.0)
        λ u. Triple-bind (Triple-enter d.my_ip) λ v.
          Triple-weaken (λ w p. p) (λ x w p. p) (λ e w p. p.1.0)
            (Triple-call {P = λ w. (w.kv ≡ k) × IsMember d.my_ip w} (λ w rs p. p))

  -- The creation of the group returns. If Consul has the address of a node to join it changes
  -- neither the keys nor a server. Otherwise, without an error, this node is in the group and the
  -- address that is kept is its own. After an error the keys are as they were: the next node that
  -- gets the lock tries again.
  pub group_create-Elected :
      (d : Daemon) → Triple (Known k s) (group_create d) (λ u. Elected d) (λ e w. w.kv ≡ k)
  unfolding group_create get_key
  group_create-Elected d =
      Triple-step
        (Triple-step (Triple-query {P = Known k s} (λ w rs p. p) (λ w. w.kv (join_key d)))
          (λ e w p. p.1.0)
          λ v.
            Triple-pure {Q = λ a w. Known k s w × (value_of (k (join_key d)) ≡ a)} (value_of v)
              λ w p. (p.0, ap value_of (rw p.0.0 at p.1)))
        (λ e w p. p)
        λ a. Triple-known λ same.
          Triple-if (a == "") _ _
            (λ unset. Triple-bind (Triple-bdr_group_create d (local_node_name d)) λ u.
              Triple-weaken (λ w p. p) (λ v w p. inr (rw same unset, p)) (λ e w p. p)
                (Triple-put_key d.my_ip (join_key d) d.my_ip))
            (λ known. Triple-pure tt λ w p. inl (rw same known, p))
