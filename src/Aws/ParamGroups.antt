-- ===== src/Aws/ParamGroups.antt =====
-- managePostgresParamGroup, manageAuroraPostgresParamGroup and manageClusterParamGroup of
-- pkg/databaseclaim/awsprovider.go.
use db_controller.Prelude.{String, List, [], ◌∷◌, ◌<>◌, if◌then◌else◌}
use db_controller.Api.Claim.{DatabaseClaim}
use db_controller.Api.Error.{Result, ok, err, panic, is_not_found}
use db_controller.Config.{get_region, get_provider_config}
use db_controller.Exec.{Exec, pure, fail, crash, ◌>>◌}
use db_controller.HostName.{get_parameter_group_name}
use db_controller.Reconciler.{Reconciler}
use db_controller.RequestInfo.{RequestInfo}
use db_controller.Aws.{Parameter, ParamGroup, Crossplane, get_engine_version}

abbrev parameter : String → String → String → Parameter
parameter name value method = record { name = name; value = value; apply_method = method }

-- the parameters of every group
abbrev common_parameters : String → List Parameter
common_parameters database =
    parameter "idle_in_transaction_session_timeout" "300000" "immediate"
    ∷ parameter "shared_preload_libraries" "pg_stat_statements,pg_cron" "pending-reboot"
    ∷ parameter "cron.database_name" database "pending-reboot"
    ∷ []

abbrev replicated_parameters : String → List Parameter
replicated_parameters database =
    parameter "rds.logical_replication" "1" "pending-reboot"
    ∷ parameter "rds.force_ssl" "1" "immediate"
    ∷ common_parameters database

-- What follows the Get of a group: one that is not found is created.
abbrev create_missing :
    {W : Type 0} → Exec W (Unit {0}) → String → Result ParamGroup → Exec W String
create_missing create name (ok group) = pure name
create_missing create name (err e) = if is_not_found e then create >> pure name else fail e
create_missing create name panic = crash

module _ {W : Type 0} (r : Reconciler W) (x : Crossplane W) where
  open r use {config, checksum}
  open x use {
    get_param_group, create_param_group, get_cluster_param_group, create_cluster_param_group,
  }

  unfoldable group_name : RequestInfo → DatabaseClaim → String
  unfolding get_parameter_group_name
  group_name info claim =
      get_parameter_group_name checksum config info.host_params claim info.db_type

  unfoldable new_group : RequestInfo → String → List Parameter → ParamGroup
  unfolding get_engine_version
  new_group info name parameters = record {
    name = name;
    region = get_region config;
    description = "custom PG for " <> name;
    engine = info.host_params.engine;
    engine_version = get_engine_version config info.host_params;
    parameters = parameters;
    provider_config = get_provider_config config;
    deletion_policy = info.host_params.deletion_policy;
  }

  -- a DBParameterGroup
  abbrev ensure_group : ParamGroup → Exec W String
  ensure_group group w =
      create_missing (create_param_group group) group.name (get_param_group group.name w) w

  -- managePostgresParamGroup
  unfoldable pub manage_postgres_param_group : RequestInfo → DatabaseClaim → Exec W String
  unfolding group_name new_group
  manage_postgres_param_group info claim =
      let parameters = replicated_parameters info.master_conn_info.database_name in
      ensure_group (new_group info (group_name info claim) parameters)

  -- manageAuroraPostgresParamGroup
  unfoldable pub manage_aurora_postgres_param_group : RequestInfo → DatabaseClaim → Exec W String
  unfolding group_name new_group
  manage_aurora_postgres_param_group info claim =
      let parameters = common_parameters info.master_conn_info.database_name in
      ensure_group (new_group info (group_name info claim) parameters)

  -- manageClusterParamGroup
  unfoldable pub manage_cluster_param_group : RequestInfo → DatabaseClaim → Exec W String
  unfolding group_name new_group
  manage_cluster_param_group info claim w =
      let parameters = replicated_parameters info.master_conn_info.database_name in
      let group = new_group info (group_name info claim) parameters in
      create_missing (create_cluster_param_group group) group.name
        (get_cluster_param_group group.name w) w
