-- ===== src/Aws/Instances.antt =====
-- managePostgresDBInstanceAWS and manageAuroraDBInstance of pkg/databaseclaim/awsprovider.go. Labels,
-- and the fields that every instance sets alike, are left out. A resource that was created is
-- then taken as it was sent.
use db_controller.Prelude.{
  ℕ, String, Bool, true, Option, none, some, List, [], ◌==◌, ◌<>◌, if◌then◌else◌,
}
use db_controller.Api.Claim.{DatabaseClaim}
use db_controller.Api.Error.{Result, ok, err, panic, message, wrapped, is_not_found}
use db_controller.Config.{
  get_region, get_provider_config, get_multi_az_enabled, get_vpc_security_group_id_refs,
  get_db_subnet_group_name_ref,
}
use db_controller.Cluster.{Handler, call, here}
use db_controller.Exec.{pure, fail, crash, lift, attempt, ◌>>=◌, ◌>>◌}
use db_controller.Mode.{ModeEnum, use_new_db}
use db_controller.Reconciler.{Reconciler}
use db_controller.RequestInfo.{RequestInfo}
use db_controller.Tags.{AwsTag, operational_status_key, replace_or_add_tag}
use db_controller.Aws.{
  SecretKey, Instance, Crossplane, nonzero, get_engine_version, set_backup_policy, db_tags,
  get_service_namespace, manage_master_password,
}
use db_controller.Aws.ParamGroups.{manage_postgres_param_group, manage_aurora_postgres_param_group}
use db_controller.Aws.Ready.{resource_readiness}
use db_controller.Aws.Updates.{active, with_window, update_db_instance}

-- What follows the Get of a resource.
abbrev pub or_create : {W R : Type 0} → Handler W R → Result R → Handler W R
or_create create (ok resource) = pure resource
or_create create (err e) = if is_not_found e then create else fail e
or_create create panic = crash

-- the snapshot that a new database is made from
abbrev pub snapshot : ModeEnum → DatabaseClaim → Option String
snapshot use_new_db claim =
    if claim.spec.restore_from == "" then none else some claim.spec.restore_from
snapshot _ claim = none

-- the secrets of a host, by its name and the namespace
abbrev pub connection_secret_of : String → String → SecretKey
connection_secret_of name namespace = record { name = name; namespace = namespace; key = "" }

abbrev pub master_secret_of : String → String → SecretKey
master_secret_of name namespace = record {
  name = name <> "-master";
  namespace = namespace;
  key = "password";
}

abbrev pub unless_deleted : {W A : Type 0} → String → String → Option ℕ → Handler W A → Handler W A
unless_deleted kind name (some t) next =
    fail
      (message ("can not create Cloud DB " <> (kind <> (" " <> (name <> " it is being deleted")))))
unless_deleted kind name none next = next

module _ {W : Type 0} (r : Reconciler W) (x : Crossplane W) where
  open r use {config}
  open x use {get_instance, create_instance}

  -- the tags of an instance
  unfoldable pub instance_tags : Handler W (List AwsTag)
  unfolding db_tags replace_or_add_tag
  instance_tags =
      db_tags r x >>= λ tags. lift (replace_or_add_tag tags operational_status_key active)

  unfoldable pub new_postgres_instance :
      ModeEnum → String → String → String → List AwsTag → RequestInfo → DatabaseClaim → Instance
  unfolding get_engine_version
  new_postgres_instance mode name namespace group tags info claim = record {
    name = name;
    ca_certificate_identifier = some info.ca_certificate_identifier;
    region = get_region config;
    skip_final_snapshot = info.host_params.skip_final_snapshot_before_deletion;
    security_group = some (get_vpc_security_group_id_refs config);
    subnet_group = some (get_db_subnet_group_name_ref config);
    parameter_group_ref = some group;
    parameter_group_name = none;
    master_secret = some (master_secret_of name namespace);
    restore_from = snapshot mode claim;
    engine_version = get_engine_version config info.host_params;
    engine = info.host_params.engine;
    multi_az = some (get_multi_az_enabled config);
    instance_class = info.host_params.instance_class;
    allocated_storage = some info.host_params.min_storage_gb;
    max_allocated_storage = nonzero info.host_params.max_storage_gb;
    tags = tags;
    master_username = some info.host_params.master_username;
    publicly_accessible = info.host_params.publicly_accessible;
    enable_iam = some info.host_params.enable_iam_database_authentication;
    enable_performance_insights = some info.enable_perf_insight;
    cloudwatch_logs_exports = info.enable_cloudwatch_logs_export;
    backup_retention_period = some info.backup_retention_days;
    storage_encrypted = some true;
    storage_type = some info.host_params.storage_type;
    port = some info.host_params.port;
    preferred_maintenance_window = claim.spec.preferred_maintenance_window;
    cluster_identifier = none;
    connection_secret = some (connection_secret_of name namespace);
    provider_config = get_provider_config config;
    deletion_policy = info.host_params.deletion_policy;
    conditions = [];
    deletion_timestamp = none;
  }

  unfoldable new_aurora_instance :
      String → String → String → List AwsTag → RequestInfo → DatabaseClaim → Instance
  unfolding get_engine_version
  new_aurora_instance name cluster_name group tags info claim = record {
    name = name;
    ca_certificate_identifier = some info.ca_certificate_identifier;
    region = get_region config;
    skip_final_snapshot = info.host_params.skip_final_snapshot_before_deletion;
    security_group = none;
    subnet_group = none;
    parameter_group_ref = none;
    parameter_group_name = some group;
    master_secret = none;
    restore_from = none;
    engine_version = get_engine_version config info.host_params;
    engine = info.host_params.engine;
    multi_az = none;
    instance_class = info.host_params.instance_class;
    allocated_storage = none;
    max_allocated_storage = none;
    tags = tags;
    master_username = none;
    publicly_accessible = info.host_params.publicly_accessible;
    enable_iam = none;
    enable_performance_insights = some info.enable_perf_insight;
    cloudwatch_logs_exports = [];
    backup_retention_period = none;
    storage_encrypted = none;
    storage_type = none;
    port = none;
    preferred_maintenance_window = claim.spec.preferred_maintenance_window;
    cluster_identifier = some cluster_name;
    connection_secret = none;
    provider_config = get_provider_config config;
    deletion_policy = info.host_params.deletion_policy;
    conditions = [];
    deletion_timestamp = none;
  }

  unfoldable pub create_postgres_instance : ModeEnum → String → String → String → Handler W Instance
  unfolding new_postgres_instance instance_tags manage_master_password
  create_postgres_instance mode name namespace group = instance_tags >>= λ tags. here (λ s.
      let resource = new_postgres_instance mode name namespace group tags s.info s.claim in
      call (manage_master_password r (master_secret_of name namespace))
      >> call (create_instance resource)
      >> pure resource)

  -- managePostgresDBInstanceAWS
  unfoldable pub manage_postgres_db_instance_aws : String → ModeEnum → Handler W Bool
  unfolding create_postgres_instance get_service_namespace manage_postgres_param_group
      resource_readiness set_backup_policy update_db_instance
  manage_postgres_db_instance_aws name mode = lift (get_service_namespace r) >>= λ namespace.
      here (λ s. call (manage_postgres_param_group r x s.info s.claim)) >>= λ group.
      set_backup_policy r
      >> here (λ s.
        or_create (create_postgres_instance mode name namespace group) (get_instance name s.world))
      >>= λ resource. unless_deleted "instance" name resource.deletion_timestamp (
          update_db_instance r x resource
          >> lift (resource_readiness "rds.instance" name resource.conditions))

  -- the result of Create is dropped
  unfoldable pub create_aurora_instance : String → String → String → Handler W Instance
  unfolding new_aurora_instance instance_tags
  create_aurora_instance name cluster_name group = instance_tags >>= λ tags. here (λ s.
      let resource = new_aurora_instance name cluster_name group tags s.info s.claim in
      attempt (call (create_instance resource)) (λ e. pure resource) (λ u. pure resource))

  -- updateDBInstance, with the error that its caller makes
  abbrev pub update_aurora_instance : String → Instance → Handler W Bool
  update_aurora_instance name resource =
      attempt (update_db_instance r x resource)
        (λ e. fail (wrapped ("error updating DBInstance " <> (name <> ": ")) e)) pure

  -- the instance of an Aurora cluster, by its own name and the cluster's
  unfoldable pub manage_aurora_instance_named : String → String → Handler W Bool
  unfolding create_aurora_instance manage_aurora_postgres_param_group resource_readiness
      set_backup_policy update_db_instance
  manage_aurora_instance_named name cluster_name =
      here (λ s. call (manage_aurora_postgres_param_group r x s.info s.claim)) >>= λ group.
      set_backup_policy r
      >> here (λ s.
        or_create (create_aurora_instance name cluster_name group) (get_instance name s.world))
      >>= λ resource. unless_deleted "instance" name resource.deletion_timestamp (
          here (λ s.
            update_aurora_instance name
              (with_window s.claim.spec.preferred_maintenance_window resource))
          >> lift (resource_readiness "aurora.instance" name resource.conditions))

  -- manageAuroraDBInstance
  unfoldable pub manage_aurora_db_instance : String → Bool → Handler W Bool
  unfolding manage_aurora_instance_named
  manage_aurora_db_instance name is_second =
      manage_aurora_instance_named (if is_second then name <> "-2" else name) name
