-- ===== src/Pg/Classes.antt =====
-- pg/pg.go: `WaitForRegClass`. What PostgreSQL's `to_regclass` yields is an argument: none is NULL.
-- The loop takes fuel; out of it, it hangs.
use rdpg_boshrelease.Base.{ℕ, zero, suc, String, Option, none, some, ◌==◌, if◌then◌else◌}
use rdpg_boshrelease.World.{
  World, Result, ok, err, panics, hangs, Action, pure, panic, hang, query, sleep, attempt, ◌>>=◌,
  ◌>>◌,
}
use rdpg_boshrelease.Pg.Conn.{Pg, connect}

-- A NULL is no name: the query fails then.
abbrev pub again_unless_named : Result (Option String) → Action → Action
again_unless_named (ok none) again = again
again_unless_named (ok (some name)) again = if name == "" then again else pure tt
again_unless_named (err e) again = again
again_unless_named panics again = panic
again_unless_named hangs again = hang

unfoldable pub class_wait : ℕ → (World → Option String) → Action
class_wait zero to_regclass w = (hangs, w)
class_wait (suc fuel) to_regclass w =
    (do
      name ← attempt (query to_regclass)
      again_unless_named name (do sleep 3; class_wait fuel to_regclass))
      w

-- `p.WaitForRegClass(k)`
unfoldable pub wait_for_reg_class : ℕ → Pg → (World → Option String) → Action
wait_for_reg_class fuel p to_regclass = do connect p; class_wait fuel to_regclass
