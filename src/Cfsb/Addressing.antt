-- ===== src/Cfsb/Addressing.antt =====
-- The address of a cluster's master, and what is made from it (instances/instances.go).
use rdpg_boshrelease.Base.{
  String, ◌<>◌, ◌≡◌, refl, sym, ◌∙◌, subst, ap, Bool, true, false, List, [], ◌∷◌, ◌≢◌, false≢true,
  split, push_char, eqb, if◌then◌else◌,
}
use Prim.Native.Char.{Char, code}
use Prim.Native.String.append
use rdpg_boshrelease.World.{World, Db, service}
use rdpg_boshrelease.World.Triple.{
  Triple, Triple-known, Triple-pure, Triple-step, Triple-bind, Triple-query,
}
use rdpg_boshrelease.World.Holding.{Holds}
use rdpg_boshrelease.Instances.{
  Instance, master_dns, external_dns, uri, uri_at, dsn, dsn_at, jdbc_uri,
}

-- There are two parts at least.
abbrev pub has_two : List String → Bool
has_two [] = false
has_two (x ∷ []) = false
has_two (x ∷ y ∷ xs) = true

has_two-cons : (w : String) (xs : List String) → has_two xs ≡ true → has_two (w ∷ xs) ≡ true
has_two-cons w [] h = h
has_two-cons w (x ∷ xs) h = refl

has_two-push_char :
    (c : Char) (xs : List String) → has_two xs ≡ true → has_two (push_char c xs) ≡ true
has_two-push_char c [] h = h
has_two-push_char c (x ∷ []) h = h
has_two-push_char c (x ∷ y ∷ xs) h = refl

-- An address with a port splits into two parts.
has_two-split : (ip : String) → has_two (split b':' (ip <> ":5432")) ≡ true
unfolding split
has_two-split String.[] = refl
has_two-split (String.◌∷◌ c ip) =
    subst (λ t. has_two (split b':' t) ≡ true) (sym (append.cons c ip ":5432"))
      (step (eqb (code c) b':') (has_two-split ip))
  where
    rest : List String
    rest = split b':' (ip <> ":5432")

    step :
        (b : Bool)
        → has_two rest ≡ true
        → has_two (if b then "" ∷ rest else push_char c rest) ≡ true
    step true h = has_two-cons "" rest h
    step false h = has_two-push_char c rest h

module _ (d : Db) (h : List String) (known : String → List String) where
  -- The database, the locks and Consul's catalog.
  abbrev pub Sees : World → Type 0
  Sees w = Holds d h w × (w.catalog ≡ known)

  pub Triple-external_dns :
      (i : Instance)
      → Triple Sees
          (external_dns i)
          (λ dns w. Sees w × (dns ≡ master_dns (known (i.cluster_id <> "-master"))))
          (λ e. Sees)
  unfolding external_dns service
  Triple-external_dns i =
      Triple-step
        (Triple-query {P = Sees} (λ w rs p. p) (λ w. w.catalog (i.cluster_id <> "-master")))
        (λ e w p. p.1)
        λ ips.
          Triple-pure _
            λ w p. (p.0, ap master_dns (sym p.1 ∙ ap (λ f. f (i.cluster_id <> "-master")) p.0.1))

  -- the address of the master of the instance's cluster
  abbrev pub address : Instance → String
  address i = master_dns (known (i.cluster_id <> "-master"))

  -- The URI and the JDBC URI need no parts.
  pub Triple-uri :
      (i : Instance) → Triple Sees (uri i) (λ u w. Sees w × (u ≡ uri_at i (address i))) (λ e. Sees)
  unfolding uri
  Triple-uri i =
      Triple-bind (Triple-external_dns i) λ dns. Triple-pure _ λ w p. (p.0, ap (uri_at i) p.1)

  pub Triple-jdbc_uri :
      (i : Instance)
      → Triple Sees (jdbc_uri i) (λ u w. Sees w × (u ≡ "jdbc:" <> uri_at i (address i))) (λ e. Sees)
  unfolding jdbc_uri
  Triple-jdbc_uri i =
      Triple-bind (Triple-external_dns i)
        λ dns. Triple-pure _ λ w p. (p.0, ap (λ t. "jdbc:" <> uri_at i t) p.1)

  -- Consul knows a master of every cluster.
  module _ (masters : (cluster : String) → known (cluster <> "-master") ≢ []) where
    pub has_two-dns :
        (cluster dns : String)
        → dns ≡ master_dns (known (cluster <> "-master"))
        → has_two (split b':' dns) ≡ true
    has_two-dns cluster dns e =
        subst (λ t. has_two (split b':' t) ≡ true) (sym e)
          (go (known (cluster <> "-master")) (masters cluster))
      where
        go : (ips : List String) → ips ≢ [] → has_two (split b':' (master_dns ips)) ≡ true
        go [] none_there = absurd (none_there refl)
        go (ip ∷ ips) some_there = has_two-split ip

    pub Triple-dsn : (i : Instance) → Triple Sees (dsn i) (λ s. Sees) (λ e. Sees)
    unfolding dsn
    Triple-dsn i =
        Triple-bind (Triple-external_dns i)
          λ dns. Triple-known λ e. go (split b':' dns) (has_two-dns i.cluster_id dns e)
      where
        go :
            (parts : List String)
            → has_two parts ≡ true
            → Triple Sees (dsn_at i parts) (λ s. Sees) (λ e. Sees)
        go [] two = absurd (false≢true two)
        go (host ∷ []) two = absurd (false≢true two)
        go (host ∷ port ∷ rest) two = Triple-pure _ λ w p. p
