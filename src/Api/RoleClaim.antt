-- ===== src/Api/RoleClaim.antt =====
-- api/v1/dbroleclaim_types.go: DbRoleClaim. Maps with text keys are association lists.
use db_controller.Prelude.{ℕ, String, Option, none, List, [], Map}
use db_controller.Api.Claim.{Condition}

pub record SourceDatabaseClaim : Type 0 where
  pub namespace : String
  pub name : String

pub record RoleSpec : Type 0 where
  pub class : Option String
  pub source_database_claim : SourceDatabaseClaim
  pub schema_role_map : Map String
  pub secret_name : String

pub record RoleStatus : Type 0 where
  pub error : String
  pub matched_source_claim : String
  pub source_secret : String
  pub source_secret_resource_version : String
  pub secret_updated_at : Option ℕ
  pub schema_status : Map String
  pub role_status : Map String
  pub schemas_roles_updated_at : Option ℕ
  pub username : String
  pub conditions : List Condition

-- `v1.DbRoleClaimStatus{}`
abbrev pub no_role_status : RoleStatus
no_role_status = record {
  error = "";
  matched_source_claim = "";
  source_secret = "";
  source_secret_resource_version = "";
  secret_updated_at = none;
  schema_status = [];
  role_status = [];
  schemas_roles_updated_at = none;
  username = "";
  conditions = [];
}

pub record DbRoleClaim : Type 0 where
  pub namespace : String
  pub name : String
  pub deletion_timestamp : Option ℕ
  pub finalizers : List String
  pub spec : RoleSpec
  pub status : RoleStatus
