-- ===== src/World/Rows.antt =====
-- The tables of rdpg/sql.go that the daemon queries, one record for a row. A column that may be
-- NULL is an `Option`; a timestamp is a number of seconds.
use rdpg_boshrelease.Base.{ℕ, String, Bool, Option, List}

-- cfsb.instances
pub record InstanceRow : Type 0 where
  pub id : ℕ
  pub cluster_id : String
  pub instance_id : Option String
  pub service_id : Option String
  pub plan_id : Option String
  pub organization_id : Option String
  pub space_id : Option String
  pub dbname : String
  pub dbuser : String
  pub dbpass : String
  pub created_at : ℕ
  pub effective_at : Option ℕ
  pub ineffective_at : Option ℕ
  pub decommissioned_at : Option ℕ

-- tasks.tasks
pub record TaskRow : Type 0 where
  pub id : ℕ
  pub cluster_id : String
  pub node : String
  pub role : String
  pub action : String
  pub task_data : String
  pub ttl : ℕ
  pub node_type : String
  pub locked_by : Option String
  pub created_at : ℕ
  pub processing_at : Option ℕ

-- tasks.schedules
pub record ScheduleRow : Type 0 where
  pub id : ℕ
  pub cluster_id : String
  pub role : String
  pub action : String
  pub task_data : String
  pub frequency : ℕ
  pub ttl : ℕ
  pub node_type : String
  pub enabled : Bool
  pub last_scheduled_at : ℕ

-- cfsb.bindings
pub record BindingRow : Type 0 where
  pub id : ℕ
  pub instance_id : String
  pub binding_id : String
  pub ineffective_at : Option ℕ

-- cfsb.credentials
pub record CredentialsRow : Type 0 where
  pub instance_id : String
  pub binding_id : String
  pub host : String
  pub port : String
  pub dbuser : String
  pub dbpass : String
  pub dbname : String

-- rdpg.config
pub record ConfigRow : Type 0 where
  pub key : String
  pub cluster_id : String
  pub value : String

-- backups.file_history
pub record HistoryRow : Type 0 where
  pub dbname : String
  pub node : String
  pub file_name : String
  pub status : String
  pub created_at : ℕ

-- cfsb.services
pub record ServiceRow : Type 0 where
  pub service_id : String
  pub name : String
  pub description : String
  pub bindable : Bool

-- cfsb.plans
pub record PlanRow : Type 0 where
  pub plan_id : Option String
  pub name : Option String
  pub description : Option String

-- The rdpg database of one cluster. `tables` are the names of the tables that were created. `next_id` is the next value of its sequences.
pub record Db : Type 0 where
  pub instances : List InstanceRow
  pub tasks : List TaskRow
  pub schedules : List ScheduleRow
  pub bindings : List BindingRow
  pub credentials : List CredentialsRow
  pub config : List ConfigRow
  pub history : List HistoryRow
  pub services : List ServiceRow
  pub plans : List PlanRow
  pub tables : List String
  pub next_id : ℕ
