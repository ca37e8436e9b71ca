-- ===== src/World/State.antt =====
-- The state that the daemon's functions pass on, and the answers that its environment will give.
use rdpg_boshrelease.Base.{ℕ, String, Option, none, List, [], ◌==◌, if◌then◌else◌}
use rdpg_boshrelease.World.Rows.{InstanceRow, TaskRow, Db}

-- A Go `error`: `sql.ErrNoRows`, or any other by its text.
pub data Error : Type 0 where
  no_rows : Error
  message : String → Error

-- Not `sql.ErrNoRows`
abbrev pub IsMessage : Error → Type 0
IsMessage no_rows = ⊥
IsMessage (message s) = Unit

-- The answer of PostgreSQL, Consul, the network or the operating system to one call. A call that
-- fails has no effect. `no_channel` is a lock call that returns no error and no channel.
-- `sql.ErrNoRows` is no answer of PostgreSQL: it comes from an empty result.
pub data Reply : Type 0 where
  done : Reply
  fails : String → Reply
  no_channel : Reply

-- A PostgreSQL server: its roles, its databases with their owners, the extensions by database,
-- the databases that are in a BDR group, those closed to connections, and the functions.
pub record Server : Type 0 where
  pub users : List String
  pub databases : List (String × String)
  pub extensions : List (String × String)
  pub groups : List String
  pub disabled : List String
  pub routines : List String

-- A request to the admin API of a node.
pub record Request : Type 0 where
  pub method : String
  pub address : String
  pub path : String
  pub subject : String

-- `replies` are the answers to the coming calls; once they are used up every call succeeds.
-- `held` are the keys of the Consul locks that this process holds. `arrivals` are the rows that
-- other processes insert into cfsb.instances during the coming sleeps. `started` are the goroutines
-- of the task handlers, with their tasks. `kv` are the values that Consul keeps by key, `files` the
-- contents of the files of this node by path, and `commands` the programs that were started on it.
pub record World : Type 0 where
  pub replies : List Reply
  pub held : List String
  pub catalog : String → List String
  pub now : ℕ
  pub arrivals : List (List InstanceRow)
  pub db : Db
  pub servers : String → Server
  pub sent : List Request
  pub started : List (String × TaskRow)
  pub kv : String → Option String
  pub files : String → Option String
  pub commands : List String

abbrev pub empty_db : Db
empty_db = record {
  instances = [];
  tasks = [];
  schedules = [];
  bindings = [];
  credentials = [];
  config = [];
  history = [];
  services = [];
  plans = [];
  tables = [];
  next_id = 1;
}

abbrev pub empty_server : Server
empty_server = record {
  users = [];
  databases = [];
  extensions = [];
  groups = [];
  disabled = [];
  routines = [];
}

abbrev pub empty_world : World
empty_world = record {
  replies = [];
  held = [];
  catalog = λ k. [];
  now = 0;
  arrivals = [];
  db = empty_db;
  servers = λ ip. empty_server;
  sent = [];
  started = [];
  kv = λ k. none;
  files = λ path. none;
  commands = [];
}

-- A function with one value changed.
abbrev pub update {ℓ} : {A : Type ℓ} → (String → A) → String → A → String → A
update f k v j = if j == k then v else f j
