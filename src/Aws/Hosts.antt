-- ===== src/Aws/Hosts.antt =====
-- manageCloudHostAWS, manageAuroraDBInstances, manageDBClusterAWS and deleteExternalResourcesAWS of
-- pkg/databaseclaim/awsprovider.go.
use db_controller.Prelude.{
  String, Bool, true, false, ◌&&◌, Option, none, some, List, [], ◌==◌, ◌<>◌, if◌then◌else◌,
}
use db_controller.Api.Claim.{DatabaseClaim, postgres, aurora_postgres}
use db_controller.Api.Error.{Err, message, followed}
use db_controller.Cleanup.{delete_cloud_database_aws, delete_parameter_group_aws}
use db_controller.Config.{
  get_cloud, get_region, get_provider_config, get_multi_az_enabled, get_vpc_security_group_id_refs,
  get_db_subnet_group_name_ref, get_default_reclaim_policy,
}
use db_controller.Cluster.{Handler, call, here}
use db_controller.Exec.{pure, fail, lift, ◌>>=◌, ◌>>◌}
use db_controller.HostName.{get_dynamic_host_name, get_parameter_group_name}
use db_controller.Mode.{ModeEnum}
use db_controller.Reconciler.{Reconciler}
use db_controller.RequestInfo.{RequestInfo}
use db_controller.Tags.{AwsTag}
use db_controller.Aws.{
  DbCluster, Crossplane, nonzero, get_engine_version, set_backup_policy, db_tags,
  get_service_namespace, manage_master_password,
}
use db_controller.Aws.Instances.{
  or_create, snapshot, connection_secret_of, master_secret_of, unless_deleted,
  manage_postgres_db_instance_aws, manage_aurora_db_instance,
}
use db_controller.Aws.ParamGroups.{manage_cluster_param_group}
use db_controller.Aws.Ready.{resource_readiness}
use db_controller.Aws.Updates.{or_else, update_db_cluster_aws}

-- ErrInvalidDBType
abbrev pub err_invalid_db_type : Err
err_invalid_db_type = message "invalid database type"

-- the window of the claim, in the copy of the resource
abbrev pub cluster_window : Option String → DbCluster → DbCluster
cluster_window window resource = record resource {
  preferred_maintenance_window = or_else window resource.preferred_maintenance_window;
}

module _ {W : Type 0} (r : Reconciler W) (x : Crossplane W) where
  open r use {config, checksum, resources}
  open x use {get_db_cluster, create_db_cluster, quote}

  unfoldable new_db_cluster :
      ModeEnum → String → String → String → List AwsTag → RequestInfo → DatabaseClaim → DbCluster
  unfolding get_engine_version
  new_db_cluster mode name namespace group tags info claim = record {
    name = name;
    region = get_region config;
    backup_retention_period = nonzero info.backup_retention_days;
    skip_final_snapshot = info.host_params.skip_final_snapshot_before_deletion;
    security_group = get_vpc_security_group_id_refs config;
    subnet_group = get_db_subnet_group_name_ref config;
    master_secret = master_secret_of name namespace;
    parameter_group = group;
    restore_from = snapshot mode claim;
    engine_version = get_engine_version config info.host_params;
    engine = info.host_params.engine;
    tags = tags;
    master_username = info.host_params.master_username;
    enable_iam = info.host_params.enable_iam_database_authentication;
    storage_encrypted = true;
    storage_type = some info.host_params.storage_type;
    port = info.host_params.port;
    cloudwatch_logs_exports = info.enable_cloudwatch_logs_export;
    preferred_maintenance_window = claim.spec.preferred_maintenance_window;
    connection_secret = connection_secret_of name namespace;
    provider_config = get_provider_config config;
    deletion_policy = info.host_params.deletion_policy;
    conditions = [];
    deletion_timestamp = none;
  }

  unfoldable pub create_cluster : ModeEnum → String → String → String → Handler W DbCluster
  unfolding new_db_cluster db_tags manage_master_password
  create_cluster mode name namespace group = db_tags r x >>= λ tags. here (λ s.
      let resource = new_db_cluster mode name namespace group tags s.info s.claim in
      call (manage_master_password r (master_secret_of name namespace))
      >> call (create_db_cluster resource)
      >> pure resource)

  -- manageDBClusterAWS
  unfoldable pub manage_db_cluster_aws : String → ModeEnum → Handler W Bool
  unfolding create_cluster get_service_namespace manage_cluster_param_group resource_readiness
      set_backup_policy update_db_cluster_aws
  manage_db_cluster_aws name mode =
      here (λ s. call (manage_cluster_param_group r x s.info s.claim)) >>= λ group.
      lift (get_service_namespace r) >>= λ namespace.
      set_backup_policy r
      >> here
          (λ s. or_create (create_cluster mode name namespace group) (get_db_cluster name s.world))
      >>= λ resource. unless_deleted "cluster" name resource.deletion_timestamp (
          here (λ s.
            update_db_cluster_aws r x
              (cluster_window s.claim.spec.preferred_maintenance_window resource))
          >> lift (resource_readiness "aurora.cluster" name resource.conditions))

  -- manageAuroraDBInstances: whether the cluster is ready is not asked
  unfoldable pub manage_aurora_db_instances : String → ModeEnum → Handler W Bool
  unfolding manage_db_cluster_aws manage_aurora_db_instance
  manage_aurora_db_instances name mode =
      (if get_cloud config == "aws" then manage_db_cluster_aws name mode else pure true)
      >> manage_aurora_db_instance r x name false
      >>= λ first.
          (if get_multi_az_enabled config
            then manage_aurora_db_instance r x name true
            else pure true)
          >>= λ second. pure (first && second)

  abbrev pub invalid_type : String → Err
  invalid_type type =
      followed err_invalid_db_type
        (": " <> (quote type <> " must be one of [postgres aurora-postgresql]"))

  -- manageCloudHostAWS
  unfoldable pub manage_cloud_host_aws : ModeEnum → Handler W Bool
  unfolding get_dynamic_host_name manage_aurora_db_instances manage_postgres_db_instance_aws
  manage_cloud_host_aws mode = here (λ s.
      let name = get_dynamic_host_name checksum config s.info.host_params s.claim in
      if s.claim.spec.db_type == aurora_postgres
      then manage_aurora_db_instances name mode
      else if s.claim.spec.db_type == postgres
      then manage_postgres_db_instance_aws r x name mode
      else fail (invalid_type s.claim.spec.db_type))

  -- deleteExternalResourcesAWS
  unfoldable pub delete_external_resources_aws : Handler W (Unit {0})
  unfolding get_dynamic_host_name get_parameter_group_name delete_cloud_database_aws
      delete_parameter_group_aws
  delete_external_resources_aws = here (λ s.
      if get_default_reclaim_policy config == "delete"
      then call (
          delete_cloud_database_aws resources config
            (get_dynamic_host_name checksum config s.info.host_params s.claim))
        >> call (
            delete_parameter_group_aws resources
              (get_parameter_group_name checksum config s.info.host_params s.claim s.info.db_type))
      else pure tt)
