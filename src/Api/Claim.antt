-- ===== src/Api/Claim.antt =====
-- api/v1/databaseclaim_types.go: DatabaseClaim. A time is a count of seconds, and a pointer that
-- may be nil an `Option`.
use db_controller.Prelude.{ℕ, ℤ, String, Bool, Option, none, List, pos}
use db_controller.Api.Connection.{ConnectionInfo, SourceDataFrom}

-- DatabaseType
abbrev pub postgres : String
postgres = "postgres"

abbrev pub aurora_postgres : String
aurora_postgres = "aurora-postgresql"

abbrev pub dsn_key : String
dsn_key = "dsn.txt"

abbrev pub dsn_uri_key : String
dsn_uri_key = "uri_dsn.txt"

abbrev pub replica_dsn_uri_key : String
replica_dsn_uri_key = "ro_uri_dsn.txt"

-- DbState
abbrev pub ready : String
ready = "ready"

abbrev pub in_progress : String
in_progress = "in-progress"

abbrev pub using_existing_db : String
using_existing_db = "using-existing-db"

abbrev pub using_shared_host : String
using_shared_host = "using-shared-host"

abbrev pub post_migration_in_progress : String
post_migration_in_progress = "post-migration-in-progress"

pub record Tag : Type 0 where
  pub key : String
  pub value : String

pub record Spec : Type 0 where
  pub class : Option String
  pub source_data_from : Option SourceDataFrom
  pub use_existing_source : Option Bool
  pub app_id : String
  pub db_type : String
  pub deletion_policy : String
  pub max_storage_gb : ℤ
  pub secret_name : String
  pub username : String
  pub database_name : String
  pub db_version : String
  pub dsn_name : String
  pub shape : String
  pub min_storage_gb : ℤ
  pub backup_policy : String
  pub restore_from : String
  pub enable_replication_role : Option Bool
  pub enable_super_user : Option Bool
  pub tags : List Tag
  pub preferred_maintenance_window : Option String

pub record Status : Type 0 where
  pub db_created_at : Option ℕ
  pub connection_info : Option ConnectionInfo
  pub db_version : String
  pub shape : String
  pub min_storage_gb : ℤ
  pub max_storage_gb : ℤ
  pub db_type : String
  pub connection_info_updated_at : Option ℕ
  pub user_updated_at : Option ℕ
  pub db_state : String
  pub source_data_from : Option SourceDataFrom

-- `v1.Status{}`
abbrev pub no_status : Status
no_status = record {
  db_created_at = none;
  connection_info = none;
  db_version = "";
  shape = "";
  min_storage_gb = pos 0;
  max_storage_gb = pos 0;
  db_type = "";
  connection_info_updated_at = none;
  user_updated_at = none;
  db_state = "";
  source_data_from = none;
}

pub record StatusForOldDb : Type 0 where
  pub connection_info : Option ConnectionInfo
  pub db_version : String
  pub shape : String
  pub db_type : String
  pub post_migration_action_started_at : Option ℕ
  pub db_state : String
  pub min_storage_gb : ℤ

abbrev pub no_old_db : StatusForOldDb
no_old_db = record {
  connection_info = none;
  db_version = "";
  shape = "";
  db_type = "";
  post_migration_action_started_at = none;
  db_state = "";
  min_storage_gb = pos 0;
}

-- metav1.Condition
pub record Condition : Type 0 where
  pub type : String
  pub status : String
  pub reason : String
  pub message : String
  pub last_transition_time : ℕ
  pub observed_generation : ℕ

pub record ClaimStatus : Type 0 where
  pub error : String
  pub new_db : Status
  pub active_db : Status
  pub migration_state : String
  pub old_db : StatusForOldDb
  pub conditions : List Condition

pub record DatabaseClaim : Type 0 where
  pub namespace : String
  pub name : String
  pub generation : ℕ
  pub deletion_timestamp : Option ℕ
  pub finalizers : List String
  pub spec : Spec
  pub status : ClaimStatus
