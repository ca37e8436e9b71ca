-- ===== src/Pg/Groups.antt =====
-- pg/pg.go: `BDRGroupCreate`, `BDRGroupJoin`, `BDRJoinWaitForReady`. The
-- loops take fuel; one that runs out of it hangs.
use rdpg_boshrelease.Base.{ℕ, zero, suc, String, Bool, if◌then◌else◌, contains}
use rdpg_boshrelease.World.{
  Error, no_rows, message, Result, ok, err, panics, hangs, Action, pure, raise, panic, hang, call,
  sleep, attempt, ◌>>=◌, ◌>>◌,
}
use rdpg_boshrelease.Pg.Conn.{Pg, set_database, connect}
use rdpg_boshrelease.Pg.Statements.{exec_server, enter_group}

-- `p.BDRGroupCreate(nodeName, dbname)`
unfoldable pub bdr_group_create : Pg → String → String → Action
bdr_group_create p node_name dbname = do
  let q = set_database dbname p
  connect q
  exec_server q.ip (enter_group dbname)
  call

-- `err.Error()`
abbrev pub text : Error → String
text no_rows = "sql: no rows in result set"
text (message s) = s

-- Is it the error of a statement that may be repeated?
abbrev pub is_conflict : Error → Bool
is_conflict e = contains (text e) "canceling statement due to conflict with recovery"

-- What the loop of `BDRGroupJoin` does after bdr.bdr_node_join_wait_for_ready().
abbrev pub join_again : Result (Unit {0}) → Action → Action
join_again (ok u) again = pure tt
join_again (err e) again = if is_conflict e then again else raise e
join_again panics again = panic
join_again hangs again = hang

unfoldable pub join_wait : ℕ → Action
join_wait zero w = (hangs, w)
join_wait (suc fuel) w = (do ready ← attempt call; join_again ready (do sleep 3; join_wait fuel)) w

-- `p.BDRGroupJoin(nodeName, dbname, target)`
unfoldable pub bdr_group_join : ℕ → Pg → String → String → Pg → Action
bdr_group_join fuel p node_name dbname target = do
  let q = set_database dbname p
  connect q
  exec_server q.ip (enter_group dbname)
  join_wait fuel

-- `p.BDRJoinWaitForReady()`
unfoldable pub bdr_join_wait_for_ready : Pg → Action
bdr_join_wait_for_ready p = do connect p; call
