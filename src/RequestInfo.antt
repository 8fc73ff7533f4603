-- ===== src/RequestInfo.antt =====
-- pkg/databaseclaim/requestinfo.go: what one reconciliation works with.
use Prim.Native.String.{len}
use db_controller.Prelude.{
  ℕ, ℤ, ltb, String, Bool, true, false, Option, none, some, List, [], ◌∷◌, ◌==◌, if◌then◌else◌,
}
use db_controller.Api.Error.{Err, Result, ok, err, panic, message, wrapped, ◌>>=◌}
use db_controller.Api.Connection.{ConnectionInfo, no_connection}
use db_controller.Api.Claim.{DatabaseClaim}
use db_controller.Config.{Viper, get_super_user_elevation}
use db_controller.HostParams as HostParams
use db_controller.HostParams.{HostParams}

pub record RequestInfo : Type 0 where
  pub db_type : String
  pub shared_db_host : Bool
  pub master_conn_info : ConnectionInfo
  pub temp_secret : String
  pub host_params : HostParams
  pub enable_replication_role : Bool
  pub enable_super_user : Bool
  pub enable_perf_insight : Bool
  pub enable_cloudwatch_logs_export : List String
  pub backup_retention_days : ℤ
  pub ca_certificate_identifier : String

abbrev pub max_name_len : ℕ
max_name_len = 44

abbrev pub err_max_name_len : Err
err_max_name_len = message "dbclaim name is too long. max length is 44 characters"

abbrev pub or_wrapped : Result HostParams → Result HostParams
or_wrapped (ok p) = ok p
or_wrapped (err e) = err (wrapped "error creating host params: " e)
or_wrapped panic = panic

abbrev pub check_name : DatabaseClaim → Result (Unit {0})
check_name claim = if ltb max_name_len (len claim.name) then err err_max_name_len else ok tt

-- `*p` of a pointer
abbrev pub deref {ℓ} : {A : Type ℓ} → Option A → Result A
deref none = panic
deref (some x) = ok x

abbrev super_user : Viper → DatabaseClaim → Result Bool
super_user cfg claim =
    if get_super_user_elevation cfg then deref claim.spec.enable_super_user else ok false

abbrev replication_role : Bool → DatabaseClaim → Result Bool
replication_role true claim = ok false
replication_role false claim = deref claim.spec.enable_replication_role

abbrev logs_export : String → List String
logs_export setting =
    if setting == "all"
    then "postgresql" ∷ "upgrade" ∷ []
    else if setting == "none"
    then []
    else setting ∷ []

-- NewRequestInfo
unfoldable pub new_request_info : Viper → DatabaseClaim → Result RequestInfo
new_request_info cfg claim = do
  host_params ← or_wrapped (HostParams.new cfg claim)
  _ ← check_name claim
  enable_super_user ← super_user cfg claim
  enable_replication_role ← replication_role enable_super_user claim
  ok (record {
    db_type = claim.spec.db_type;
    shared_db_host = false;
    master_conn_info = record no_connection { database_name = claim.spec.database_name };
    temp_secret = "";
    host_params = host_params;
    enable_replication_role = enable_replication_role;
    enable_super_user = enable_super_user;
    enable_perf_insight = cfg.get_bool "enablePerfInsight";
    enable_cloudwatch_logs_export = logs_export (cfg.get_string "enableCloudwatchLogsExport");
    backup_retention_days = cfg.get_int "backupRetentionDays";
    ca_certificate_identifier = cfg.get_string "caCertificateIdentifier";
  })
