-- ===== src/Lib.antt =====
-- rdpg-boshrelease: the daemon rdpgd (src/rdpgd), which makes PostgreSQL databases in advance on
-- replicated clusters and gives them to Cloud Foundry service instances.
--
-- The parts and how they interact. A management cluster and several service clusters each run the
-- daemon on every node. Package pg works on one PostgreSQL server, package bdr on all nodes of a
-- cluster, which Consul lists. Package tasks has a queue of tasks in the database of the cluster: the
-- scheduler fills it, workers take from it under a Consul lock, and handlers make, decommission and
-- remove databases. Package instances keeps the table of the databases: a service cluster registers
-- them with the management cluster, `Provision` assigns an available one and tells the service
-- cluster. Package cfsb is the service broker, which asks for instances and binds them.
--
-- What models what:
--   World        the state: the rows of the tables of rdpg/sql.go, the PostgreSQL servers, Consul's
--                catalog and the locks that this process holds, the HTTP requests that were sent, the
--                goroutines that were started, the files and programs of the node, the time. A Go
--                function is a function from this state to a result (a value, an error, a panic, or
--                waiting for ever) and the state after it.
--                World.Triple has the rules of total correctness in which most theorems are stated.
--   Pg           pg/pg.go: `PG`, its strings, users, databases and BDR groups
--   Bdr          bdr/bdr.go: the same operations over the nodes of a cluster
--   Instances    instances/*.go: Model (instances.go, cluster.go), Find (find.go), Assign (the changes)
--   Tasks        tasks/*.go: Queue (tasks.go), Work (work.go, consul_helpers.go), Scheduler
--                (scheduler.go), Databases (databases.go), Maintenance (decommission.go, config.go,
--                vacuum.go, history.go, pg_helpers.go)
--   Tasks also   Backups (backups.go), Reconcile (reconcile.go, reconfigure.go), Crowd (the loop of
--                work.go as moves of several workers that share the queue and the lock, in any order)
--   Uuid         uuid/uuid.go
--   Web          `httpAuth` and `isAuthorized` of cfsb/api.go and admin/api.go, with base64, and the
--                answers of the handlers
--   Services     services/*.go
--   Cfsb         Bindings (cfsb/bindings.go, credentials.go, instances.go), Offers (catalog.go,
--                plans.go, services.go), Handlers (the handlers of api.go)
--   Admin        Databases (admin/databases.go), Checks (health.go, service.go)
--   Rdpg         Cluster (rdpg/cluster.go, rdpg.go), Schedules and Schema (schema.go), Bootstrap
--                (bootstrap.go)
--   Base, Tests  shared helpers; the theorems at concrete inputs, and runs
-- All paths are below src/rdpgd.
--
-- The environment. `replies` in the state are the answers to the coming calls of PostgreSQL, Consul
-- and HTTP: any of them may fail, and a call that fails has no effect. Once they are used up every
-- call succeeds. A row that other processes insert into the table of instances arrives during a
-- sleep. Locks are those of Consul: `Lock` waits for ever if this process holds the key, and
-- `Unlock` gives the key up even when its call fails, as its session ends.
--
-- Loops that repeat until a call succeeds take fuel, and hang without it. Each round of them that
-- fails uses up a reply, so fuel above the replies that are left (three more for `Provision`, which
-- waits three times for an available database) is enough; the theorems state it. The waits for other
-- nodes of a cluster end with them: what these register, by time, is an argument, and the fuel is a
-- round for every two seconds.
--
-- Simplifications: statements are made by formatting, and values are taken to have no quote in them;
-- PostgreSQL folds a name without quotes to lower case; strings.ToLower and SQL's lower act on ASCII
-- text; passwords are no part of a server; the log, the closing of connections, the environment
-- variables and the text of most errors of the libraries are left out; a number of the code that is
-- never negative is a natural number. Columns that no query reads are no fields of a row. The
-- connection of OpenWorkDB is open. The random bytes of UUIDs, the function md5, the formatted time and
-- the output of pg_dump are arguments, as are the variables of a route and the decoded body of a
-- request. A string that is encoded, decoded or printed from bytes is the list of its bytes; an answer
-- is its status with a description or the value that it serves; of a binding that is its credentials.
--
-- The workers of Crowd keep what Consul gives them until they give it up: a session that is lost while
-- a worker is between the lock and the unlock is no move of it.
--
-- Not modelled: the environment variables; the routes of the APIs, which the vendored router serves;
-- FindPlan, which nothing calls; the process itself (rdpgd.go) and the log, which are I/O around these
-- parts; the acceptance tests.
pub mod Base
pub mod World
pub mod Pg
pub mod Uuid
pub mod Web
pub mod Bdr
pub mod Instances
pub mod Services
pub mod Tasks
pub mod Cfsb
pub mod Admin
pub mod Rdpg
pub mod Tests
