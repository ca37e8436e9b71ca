-- ===== src/Services/Writing.antt =====
-- Rules for the files of a node.
use rdpg_boshrelease.Base.{String, ◌≡◌, Option, none, some, is_null}
use rdpg_boshrelease.World.{
  World, Db, Error, update, read_file, write_file, is_missing, run, contents,
}
use rdpg_boshrelease.World.Triple.{
  Triple, Triple-known, Triple-pure, Triple-raise, Triple-weaken, Triple-step, Triple-call,
  Triple-query, Triple-gets,
}

abbrev pub Files : Type 0
Files = String → Option String

-- The database is `d`, and the files of the node are `f`.
abbrev pub Node : Db → Files → World → Type 0
Node d f w = (w.db ≡ d) × (w.files ≡ f)

module _ (d : Db) (f : Files) where
  pub Triple-read_file :
      (path : String)
      → Triple (Node d f) (read_file path) (λ s w. Node d f w × (f path ≡ some s)) (λ e. Node d f)
  unfolding read_file
  Triple-read_file path =
      Triple-step (Triple-query {P = Node d f} (λ w rs p. p) (λ w. w.files path)) (λ e w p. p.1)
        λ found.
          Triple-weaken {P' = λ w. Node d f w × (f path ≡ found)} (λ w p. (p.0, rw p.0.1 at (p.1)))
            (λ s w p. p) (λ e w p. p) (Triple-known (go found))
    where
      go :
          (found : Option String)
          → f path ≡ found
          → Triple
              (Node d f)
              (contents found)
              (λ s w. Node d f w × (f path ≡ some s))
              (λ e. Node d f)
      go (some s) has = Triple-pure s λ w p. (p, has)
      go none has = Triple-raise _ λ w p. p

  pub Triple-write_file :
      (path s : String)
      → Triple (Node d f) (write_file path s) (λ u. Node d (update f path (some s))) (λ e. Node d f)
  unfolding write_file
  Triple-write_file path s =
      Triple-step (Triple-call {P = Node d f} (λ w rs p. p)) (λ e w p. p.1)
        λ u. record { at = λ w p. (p.0, rw p.1) }

  pub Triple-run :
      (command : String) → Triple (Node d f) (run command) (λ u. Node d f) (λ e. Node d f)
  unfolding run
  Triple-run command =
      Triple-step (Triple-call {P = Node d f} (λ w rs p. p)) (λ e w p. p.1)
        λ u. record { at = λ w p. p }

  -- `is_missing` tells whether there is such a path.
  pub Triple-is_missing :
      {E : Error → World → Type 0} (path : String)
      → Triple (Node d f) (is_missing path) (λ b w. Node d f w × (is_null (f path) ≡ b)) E
  unfolding is_missing
  Triple-is_missing path =
      Triple-weaken (λ w p. p) (λ b w p. (p.0, rw p.0.1 at (p.1))) (λ e w p. p)
        (Triple-gets (λ w. is_null (w.files path)))
