-- ===== src/Bdr/Users.antt =====
-- `CreateUser` and `DropUser` over the nodes of a cluster.
use rdpg_boshrelease.Base.{
  String, ◌≡◌, sym, eq_iff, ◌∙◌, subst, ap, true, false, none, List, [], ◌∷◌, map, ◌==◌, All,
  to_lower, Bool-cases, inl, inr,
}
use rdpg_boshrelease.World.{World, Server, ok, call, service, query, servers-call, catalog-call}
use rdpg_boshrelease.World.Triple.{Triple, Triple-pure, Triple-weaken, Triple-step, Triple-given}
use rdpg_boshrelease.Pg.{Pg, new_pg, set_database, has_user, create_user}
use rdpg_boshrelease.Pg.Ensures.{
  Servers, UserAdded, Triple-servers, create_user-UserAdded, ip-set_database,
}
use rdpg_boshrelease.Bdr.{Bdr, pg_nodes, known_nodes, on_each, create_user_on_nodes}

abbrev pub nodes_at : Bdr → List String → List Pg
nodes_at b = map (λ address. new_pg address b.pg_port "postgres" "postgres" "")

-- Consul answers the coming call, and has the addresses.
pub record Answered (s : String → Server) (name : String) (ips : List String) (w : World)
    : Type 0 where
  pub servers : w.servers ≡ s
  pub listed : w.catalog name ≡ ips
  pub replied : (call w).0 ≡ ok tt

-- Then the nodes are the listed ones.
pub Triple-known_nodes :
    (s : String → Server) (b : Bdr) (ips : List String)
    → Triple
        (Answered s b.cluster_id ips)
        (known_nodes b)
        (λ found w. (found ≡ (nodes_at b ips, none)) × Servers s w)
        (λ e w. ⊥)
unfolding known_nodes pg_nodes service query
Triple-known_nodes s b ips = record {
  at = λ w h. rw h.replied (rw (catalog-call, h.listed), servers-call w ∙ h.servers);
}

module _ (s : String → Server) (u : String) where
  -- The role is on each of the nodes, and no role has gone from any server.
  abbrev pub UserOn : List Pg → (String → Server) → Type 0
  UserOn ps s' =
      All (λ p. has_user u (s' p.ip) ≡ true) ps
      × ((ip j : String) → has_user j (s ip) ≡ true → has_user j (s' ip) ≡ true)

-- A role that is added on one server goes from none.
UserAdded-keeps :
    (s s' : String → Server) (at_ip u : String)
    → UserAdded s at_ip u s'
    → (ip j : String) → has_user j (s ip) ≡ true
    → has_user j (s' ip) ≡ true
UserAdded-keeps s s' at_ip u (has, old, others) ip j h = elim (Bool-cases (ip == at_ip)) [
  | inl e ↦
      let same : ip ≡ at_ip = (eq_iff ip at_ip).0 e in
      subst (λ i. has_user j (s' i) ≡ true) (sym same)
        (old j (subst (λ i. has_user j (s i) ≡ true) same h))
  | inr e ↦ subst (λ x. has_user j x ≡ true) (sym (others ip e)) h
]

Triple-on_each_user :
    (u pass : String) (ps : List Pg) (s : String → Server)
    → to_lower u ≡ u
    → (u == "") ≡ false
    → Triple
        (Servers s)
        (on_each (λ p. create_user (set_database "postgres" p) u pass) ps)
        (λ x w. UserOn s u ps w.servers)
        (λ e w. Unit)
unfolding on_each
Triple-on_each_user u pass [] s lower named = Triple-pure tt λ w h. (tt, λ ip j k. rw h k)
Triple-on_each_user u pass (p ∷ ps) s lower named =
    Triple-step (create_user-UserAdded (set_database "postgres" p) u pass s lower named)
      (λ e w h. tt)
      λ x. Triple-servers {R = UserAdded s (set_database "postgres" p).ip u} λ s' h.
        Triple-weaken (λ w k. k)
          (λ y w k. (
            (
              k.1 _ u (subst (λ i. has_user u (s' i) ≡ true) (ip-set_database "postgres" p) h.0),
              k.0,
            ),
            λ ip j old. k.1 ip j (UserAdded-keeps s s' _ u h ip j old),
          ))
          (λ e w k. k) (Triple-on_each_user u pass ps s' lower named)

-- `CreateUser` of a cluster returns when Consul answers its coming call with the addresses of the
-- nodes. If it returns no error, the role is on every node of the cluster, and no role has gone
-- from any server. The role's name is in lower case and not empty.
pub create_user_on_nodes-UserOn :
    (b : Bdr) (u pass : String) (ips : List String) (s : String → Server)
    → to_lower u ≡ u
    → (u == "") ≡ false
    → Triple
        (Answered s b.cluster_id ips)
        (create_user_on_nodes b u pass)
        (λ x w. UserOn s u (nodes_at b ips) w.servers)
        (λ e w. Unit)
unfolding create_user_on_nodes
create_user_on_nodes-UserOn b u pass ips s lower named =
    Triple-step (Triple-known_nodes s b ips) (λ e w h. absurd h)
      λ found. Triple-given λ w h.
        Triple-weaken (λ v k. k.1)
          (λ x v k. subst (λ ps. UserOn s u ps v.servers) (ap (λ q. q.0) h.0) k) (λ e v k. k)
          (Triple-on_each_user u pass found.0 s lower named)
