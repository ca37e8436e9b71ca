-- ===== src/World/Calls.antt =====
-- The calls that leave the process. Each takes the next reply of the environment.
use rdpg_boshrelease.Base.{
  Bool, is_null, ℕ, ◌+◌, String, Option, none, some, List, [], ◌∷◌, ◌++◌, ◌==◌, not, if◌then◌else◌,
  select, member,
}
use rdpg_boshrelease.World.Rows.{InstanceRow, Db}
use rdpg_boshrelease.World.State.{
  no_rows, message, Reply, done, fails, no_channel, Request, World, update,
}
use rdpg_boshrelease.World.Monad.{
  Result, ok, err, hangs, Exec, Action, pure, raise, gets, modify, ◌>>=◌, ◌>>◌,
}

abbrev pub replied : Reply → Result (Unit {0})
replied done = ok tt
replied (fails s) = err (message s)
replied no_channel = ok tt

abbrev pub answer : List Reply → Action
answer [] w = (ok tt, record w { replies = [] })
answer (r ∷ rs) w = (replied r, record w { replies = rs })

-- A call with no effect on the modelled state: `p.Connect()`, `consulapi.NewClient()`, a query.
unfoldable pub call : Action
call w = answer w.replies w

-- A statement that changes the rdpg database.
unfoldable pub exec_db : (Db → Db) → Action
exec_db f = do call; modify (λ w. record w { db = f w.db })

-- `sqlx.Get`: the first row, or `sql.ErrNoRows`
abbrev pub got : {A : Type 0} → Option A → Exec A
got (some a) = pure a
got none = raise no_rows

unfoldable pub query : {A : Type 0} → (World → A) → Exec A
query f = do call; gets f

unfoldable pub get_row : {A : Type 0} → (World → Option A) → Exec A
get_row f = do row ← query f; got row

-- `time.Sleep`: time passes, and other processes may insert instances.
abbrev pub arrived : List (List InstanceRow) → World → World
arrived [] w = w
arrived (rows ∷ later) w = record w {
  arrivals = later;
  db = record (w.db) { instances = w.db.instances ++ rows };
}

unfoldable pub sleep : ℕ → Action
sleep n w = (ok tt, let w' = arrived w.arrivals w in record w' { now = w'.now + n })

-- `catalog.Service(name, "", nil)`: the addresses of a service's nodes
unfoldable pub service : String → Exec (List String)
service name = query (λ w. w.catalog name)

-- An HTTP request to the admin API. The answer's status is not looked at.
unfoldable pub send : Request → Action
send r = do call; modify (λ w. record w { sent = w.sent ++ (r ∷ []) })

abbrev pub granted : String → List Reply → Action
granted key [] w = (ok tt, record w { replies = []; held = key ∷ w.held })
granted key (done ∷ rs) w = (ok tt, record w { replies = rs; held = key ∷ w.held })
granted key (fails s ∷ rs) w = (err (message s), record w { replies = rs })
granted key (no_channel ∷ rs) w = (err (message "lock not acquired"), record w { replies = rs })

-- `client.LockKey(key)` and `lock.Lock(nil)`: the second waits until nobody holds the key, so it
-- waits for ever if this process holds it.
unfoldable pub lock : String → Action
lock key = do call; λ w. if member key w.held then (hangs, w) else granted key w.replies w

unfoldable pub release : String → World → World
release key w = record w { held = select (λ j. not (j == key)) w.held }

-- `lock.Unlock()`, which fails if the lock is not held. If its call fails the lock is given up all
-- the same, since the session that holds it ends.
unfoldable pub unlock : String → Action
unlock key w =
    if member key w.held
    then (do modify (release key); call) w
    else (err (message "Lock not held"), w)

-- `ioutil.ReadFile(path)`
abbrev pub contents : Option String → Exec String
contents (some s) = pure s
contents none = raise (message "no such file or directory")

unfoldable pub read_file : String → Exec String
read_file path = do found ← query (λ w. w.files path); contents found

-- `ioutil.WriteFile(path, s, 0640)`
unfoldable pub write_file : String → String → Action
write_file path s = do call; modify (λ w. record w { files = update w.files path (some s) })

-- `os.Stat(path); os.IsNotExist(err)`; a directory that exists is a path with some contents.
unfoldable pub is_missing : String → Exec Bool
is_missing path = gets (λ w. is_null (w.files path))

-- `exec.Command(...).Run()`
unfoldable pub run : String → Action
run command = do call; modify (λ w. record w { commands = w.commands ++ (command ∷ []) })
