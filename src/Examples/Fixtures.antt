-- ===== src/Examples/Fixtures.antt =====
-- A claim, its settings, and a world with the calls on it.
use db_controller.Prelude.{pos, true, false, Option, none, some, [], ◌∷◌, ◌==◌, if◌then◌else◌}
use db_controller.Api.Error.{Result, ok, err, not_found, failed}
use db_controller.Api.Connection.{ConnectionInfo}
use db_controller.Api.Claim.{
  Spec, Status, no_status, no_old_db, DatabaseClaim, postgres, ready, in_progress,
}
use db_controller.Cluster.{Cluster}
use db_controller.Config.{Viper}
use db_controller.Sql.{Sql, Url}
use db_controller.DbClient.Connect.{Client}
use db_controller.Pgctl.Postgres.{Config, Databases}
use db_controller.Secrets.{Data}
use db_controller.Tags.{AwsTag, Resource, Resources}

abbrev pub settings : Viper
settings = record {
  get_string = λ k.
      if k == "defaultMasterPort"
      then "5432"
      else if k == "storageType"
      then "gp3"
      else if k == "cloud"
      then "aws"
      else if k == "defaultBackupPolicyValue"
      then "Bronze"
      else "";
  get_bool = λ _. false;
  get_int = λ _. pos 7;
  get_duration = λ _. pos 3600;
  get_string_map = λ _. [];
  title = λ s. s;
}

abbrev pub connection : ConnectionInfo
connection = record {
  host = "db.example.com";
  port = "5432";
  database_name = "app";
  username = "app_a";
  password = "p $1";
  ssl_mode = "require";
}

abbrev pub spec : Spec
spec = record {
  class = some "default";
  source_data_from = none;
  use_existing_source = some false;
  app_id = "app";
  db_type = postgres;
  deletion_policy = "Delete";
  max_storage_gb = pos 0;
  secret_name = "app-secret";
  username = "app";
  database_name = "app";
  db_version = "15.3";
  dsn_name = "dsn.txt";
  shape = "db.t4g.medium";
  min_storage_gb = pos 20;
  backup_policy = "Gold";
  restore_from = "";
  enable_replication_role = some false;
  enable_super_user = some false;
  tags = [];
  preferred_maintenance_window = none;
}

abbrev pub active : Status
active = record no_status {
  connection_info = some connection;
  db_version = "14.1";
  shape = "db.t4g.medium";
  db_type = postgres;
  db_state = ready;
}

abbrev pub claim : DatabaseClaim
claim = record {
  namespace = "apps";
  name = "app";
  generation = 1;
  deletion_timestamp = none;
  finalizers = [];
  spec = spec;
  status = record {
    error = "former";
    new_db = record no_status { connection_info = some connection; db_state = in_progress };
    active_db = active;
    migration_state = "copy_schema";
    old_db = no_old_db;
    conditions = [];
  };
}

-- what every call works on: the secret and the claim that were stored last
pub record World : Type 0 where
  pub secret : Option Data
  pub stored : Option DatabaseClaim

abbrev pub start : World
start = record { secret = some (some []); stored = none }

abbrev pub found {ℓ} : {A : Type ℓ} → Option A → Result A
found none = err not_found
found (some a) = ok a

abbrev pub cluster : Cluster World
cluster = record {
  now = λ _. 100;
  get_claim = λ _ _ w. found w.stored;
  update_claim = λ c w. (ok tt, record w { stored = some c });
  update_claim_status = λ c w. (ok tt, record w { stored = some c });
  get_secret = λ _ _ w. found w.secret;
  create_secret = λ _ _ d w. (ok tt, record w { secret = some (some d) });
  update_secret = λ _ _ d w. (ok tt, record w { secret = some d });
  delete_secret = λ _ _ w. (ok tt, record w { secret = none });
  list_role_claims = λ _ _. ok [];
  get_role_claim = λ _ _ _. err not_found;
  create_role_claim = λ _ w. (ok tt, w);
  update_role_claim = λ _ w. (ok tt, w);
  update_role_claim_status = λ _ w. (ok tt, w);
  secret_version = λ _ _ _. ok "7";
}

abbrev pub databases : {W : Type 0} → Databases W
databases = record {
  ping = λ _ _. ok tt;
  user_of = λ _. ok "app_a";
  is_replication_superuser = λ _ _. ok true;
  count_admin_roles = λ _ _. ok 1;
  wal_level_is_logical = λ _ _. ok true;
  publication_exists = λ _ _ _. ok false;
  create_publication = λ _ _ w. (ok tt, w);
  drop_publication = λ _ _ w. (ok tt, w);
  subscription_exists = λ _ _ _. ok false;
  create_subscription = λ _ _ _ _ w. (ok tt, w);
  enable_subscription = λ _ _ w. (ok tt, w);
  disable_subscription = λ _ _ w. (ok tt, w);
  drop_subscription = λ _ _ w. (ok tt, w);
  grant_role = λ _ _ _ w. (ok tt, w);
  revoke_role = λ _ _ _ w. (ok tt, w);
  dump_schema = λ _ _ w. (ok "dump.sql", w);
  modify_dump = λ _ w. (ok tt, w);
  restore = λ _ _ _ w. (ok tt, w);
  drop_schemas = λ _ w. (ok tt, w);
  slot_active = λ _ _ _. ok false;
  unready_relations = λ _ _ _. ok 0;
  sequences = λ _ _. ok [];
  rounded_value = λ _ _ _. ok 1000;
  set_value = λ _ _ _ w. (ok tt, w);
  revoke_writes = λ _ _ w. (ok tt, w);
  table_counts = λ _ _. ok (("users", 3) ∷ []);
  table_count = λ _ _ _. ok 3;
}

abbrev pub migration_config : Config
migration_config = record {
  cloud = "aws";
  source_db_admin_dsn = "postgres://root@old/app";
  source_db_user_dsn = "postgres://app_a@old/app";
  target_db_admin_dsn = "postgres://root@new/app";
  target_db_user_dsn = "postgres://app_a@new/app";
  export_file_path = "/tmp/";
}

abbrev pub filled_tag : AwsTag
filled_tag = record { key = some "team"; value = some "core" }

abbrev pub instance_tags : Resource
instance_tags = record { tags = filled_tag ∷ []; provider_tags = []; deletion_timestamp = none }

-- a world of one resource
abbrev pub resources : Resources Resource
resources = record {
  get_resource = λ _ _ r. ok r;
  patch_tags = λ _ _ tags r. (ok tt, record r { tags = tags });
  delete_resource = λ _ _ r. (ok tt, record r { deletion_timestamp = some 100 });
}

abbrev pub login_url : Url
login_url = record {
  hostname = "db.example.com";
  port = "5432";
  username = "app_a";
  password = some "secret";
  path = "/app";
  ssl_mode = "require";
}

abbrev pub root_client : Client
root_client = record { cloud = "aws"; dsn = "root"; admin_dsn = "admin" }

-- a server on which one login is refused
abbrev pub sql : Sql World
sql = record {
  open_db = λ _. ok tt;
  ping = λ dsn _. if dsn == "refused" then err (failed "password") else ok tt;
  parse_url = λ _. ok login_url;
  with_path = λ _ dsn. ok (if dsn == "user" then "refused" else "admin");
  query_escape = λ s. s;
  redacted = λ dsn. dsn;
  exec = λ _ _ w. (ok tt, w);
  test = λ _ _ _. ok true;
  roles_of = λ _ _ _. ok [];
  call_function = λ _ _ _ _. ok "";
}
