-- ===== src/Gcp/Hosts.antt =====
-- manageCloudHostGCP, manageDBClusterGCP, managePostgresDBInstanceGCP, updateDBClusterGCP and the
-- deletions of pkg/databaseclaim/gcpprovider.go.
use text.Mathlib.Text.{starts_with}
use db_controller.Prelude.{
  ℕ, pos, eqz, String, Bool, true, false, not, Option, none, some, [], ◌∷◌, ◌==◌, ◌<>◌,
  if◌then◌else◌,
}
use db_controller.Api.Claim.{postgres}
use db_controller.Api.Error.{Err, Result, ok, err, panic, is_not_found, followed}
use db_controller.Aws.{get_service_namespace, manage_master_password, set_backup_policy}
use db_controller.Aws.Hosts.{err_invalid_db_type}
use db_controller.Aws.Instances.{or_create, connection_secret_of, master_secret_of, unless_deleted}
use db_controller.Aws.Ready.{resource_readiness}
use db_controller.Config.{
  get_default_reclaim_policy, get_multi_az_enabled, get_project, get_provider_config, get_region,
}
use db_controller.Cluster.{Handler, call, here}
use db_controller.Exec.{Exec, pure, fail, crash, lift, ◌>>=◌, ◌>>◌}
use db_controller.Gcp.{Alloy, AlloyCluster, AlloyInstance}
use db_controller.Gcp.Connection.{manage_network_record, create_secret_with_conn_info}
use db_controller.HostName.{get_dynamic_host_name}
use db_controller.Reconciler.{Reconciler}
use db_controller.RequestInfo.{RequestInfo}

-- getAlloyDBVersion
unfoldable pub get_alloy_db_version : String → String
get_alloy_db_version version = if starts_with version "14" then "POSTGRES_14" else "POSTGRES_15"

module _ {W : Type 0} (r : Reconciler W) (x : Alloy W) where
  open r use {config, checksum}
  open x use {
    get_cluster, create_cluster, patch_cluster, delete_cluster, get_instance, create_instance,
    delete_instance, num_backups_to_retain, quote,
  }

  unfoldable pub new_alloy_cluster : String → String → RequestInfo → AlloyCluster
  unfolding get_alloy_db_version
  new_alloy_cluster name namespace info = record {
    name = name;
    automated_backup_policy = some (record { enabled = true; retention_count = none });
    database_version = get_alloy_db_version info.host_params.db_version;
    provider_deletion_policy = info.host_params.deletion_policy;
    display_name = name;
    master_secret = master_secret_of name namespace;
    master_username = info.host_params.master_username;
    location = get_region config;
    psc_enabled = true;
    connection_secret = connection_secret_of name namespace;
    provider_config = get_provider_config config;
    deletion_policy = info.host_params.deletion_policy;
    conditions = [];
    deletion_timestamp = none;
  }

  unfoldable pub create_alloy_cluster : String → String → Handler W AlloyCluster
  unfolding new_alloy_cluster manage_master_password
  create_alloy_cluster name namespace = here (λ s.
      let resource = new_alloy_cluster name namespace s.info in
      call (manage_master_password r (master_secret_of name namespace))
      >> call (create_cluster resource)
      >> pure resource)

  -- the cluster with what a claim may change of it
  unfoldable pub updated_alloy_cluster : RequestInfo → AlloyCluster → AlloyCluster
  updated_alloy_cluster info old = record old {
    automated_backup_policy =
        if eqz info.backup_retention_days (pos 0)
        then old.automated_backup_policy
        else some (record { enabled = true; retention_count = some num_backups_to_retain });
    deletion_policy = info.host_params.deletion_policy;
  }

  -- updateDBClusterGCP
  unfoldable pub update_db_cluster_gcp : AlloyCluster → Handler W Bool
  unfolding set_backup_policy updated_alloy_cluster
  update_db_cluster_gcp old =
      set_backup_policy r
      >> here (λ s. call (patch_cluster old (updated_alloy_cluster s.info old)))
      >> pure true

  -- manageDBClusterGCP
  unfoldable pub manage_db_cluster_gcp : String → Handler W Bool
  unfolding create_alloy_cluster get_service_namespace resource_readiness set_backup_policy
      update_db_cluster_gcp
  manage_db_cluster_gcp name = lift (get_service_namespace r) >>= λ namespace.
      set_backup_policy r
      >> here (λ s. or_create (create_alloy_cluster name namespace) (get_cluster name s.world))
      >>= λ resource. unless_deleted "cluster" name resource.deletion_timestamp (
          update_db_cluster_gcp resource
          >> lift (resource_readiness "alloydb.cluster" name resource.conditions))

  unfoldable pub new_alloy_instance : String → RequestInfo → AlloyInstance
  new_alloy_instance name info = record {
    name = name;
    availability_type = if get_multi_az_enabled config then "ZONAL" else "REGIONAL";
    ssl_mode = "ENCRYPTED_ONLY";
    cluster_ref = name;
    display_name = name;
    gce_zone = get_region config;
    instance_type = "PRIMARY";
    enable_public_ip = false;
    allowed_consumer_projects = get_project config ∷ [];
    database_flags = ("alloydb.iam_authentication", "on") ∷ [];
    provider_config = get_provider_config config;
    deletion_policy = info.host_params.deletion_policy;
    psc_status = none;
    conditions = [];
    deletion_timestamp = none;
  }

  unfoldable pub create_alloy_instance : String → String → Handler W AlloyInstance
  unfolding new_alloy_instance manage_master_password
  create_alloy_instance name namespace = here (λ s.
      let resource = new_alloy_instance name s.info in
      call (manage_master_password r (master_secret_of name namespace))
      >> call (create_instance resource)
      >> pure resource)

  -- managePostgresDBInstanceGCP
  unfoldable pub manage_postgres_db_instance_gcp : String → Handler W Bool
  unfolding create_alloy_instance get_service_namespace resource_readiness set_backup_policy
  manage_postgres_db_instance_gcp name = lift (get_service_namespace r) >>= λ namespace.
      set_backup_policy r
      >> here (λ s. or_create (create_alloy_instance name namespace) (get_instance name s.world))
      >>= λ resource.
          unless_deleted "instance" name resource.deletion_timestamp
            (lift (resource_readiness "alloydb.instance" name resource.conditions))

  -- what manageCloudHostGCP does behind the instance, once that is ready
  unfoldable pub connect_if_ready : String → Bool → Handler W Bool
  unfolding manage_network_record create_secret_with_conn_info
  connect_if_ready name is_ready =
      if is_ready
      then (call (manage_network_record r x name)
          >> here
              (λ s. call (create_secret_with_conn_info r x s.info.host_params.master_username name))
          >> pure true)
      else pure false

  abbrev pub not_postgres : String → Err
  not_postgres type =
      followed err_invalid_db_type (": " <> (quote type <> " must be one of [postgres]"))

  -- manageCloudHostGCP
  unfoldable pub manage_cloud_host_gcp : Handler W Bool
  unfolding connect_if_ready get_dynamic_host_name manage_db_cluster_gcp
      manage_postgres_db_instance_gcp
  manage_cloud_host_gcp = here (λ s.
      let name = get_dynamic_host_name checksum config s.info.host_params s.claim in
      if not (s.claim.spec.db_type == postgres)
      then fail (not_postgres s.claim.spec.db_type)
      else (manage_db_cluster_gcp name
          >> manage_postgres_db_instance_gcp name
          >>= connect_if_ready name))

  -- a resource that is there, by its timestamp, and is not being deleted, is deleted
  abbrev delete_present : Result (Option ℕ) → Exec W (Unit {0}) → Exec W (Unit {0})
  delete_present (ok (some t)) delete = pure tt
  delete_present (ok none) delete = delete
  delete_present (err e) delete = if is_not_found e then pure tt else fail e
  delete_present panic delete = crash

  abbrev instance_timestamp : Result AlloyInstance → Result (Option ℕ)
  instance_timestamp (ok i) = ok i.deletion_timestamp
  instance_timestamp (err e) = err e
  instance_timestamp panic = panic

  abbrev cluster_timestamp : Result AlloyCluster → Result (Option ℕ)
  cluster_timestamp (ok i) = ok i.deletion_timestamp
  cluster_timestamp (err e) = err e
  cluster_timestamp panic = panic

  unfoldable delete_instance_if_there : String → Exec W (Unit {0})
  delete_instance_if_there name w =
      delete_present (instance_timestamp (get_instance name w)) (delete_instance name) w

  unfoldable delete_cluster_if_there : String → Exec W (Unit {0})
  delete_cluster_if_there name w =
      delete_present (cluster_timestamp (get_cluster name w)) (delete_cluster name) w

  -- deleteCloudDatabaseGCP
  unfoldable pub delete_cloud_database_gcp : String → Exec W (Unit {0})
  unfolding delete_instance_if_there delete_cluster_if_there
  delete_cloud_database_gcp name =
      (if get_multi_az_enabled config then delete_instance_if_there (name <> "-2") else pure tt)
      >> delete_instance_if_there name
      >> delete_cluster_if_there name

  -- deleteExternalResourcesGCP
  unfoldable pub delete_external_resources_gcp : Handler W (Unit {0})
  unfolding get_dynamic_host_name delete_cloud_database_gcp
  delete_external_resources_gcp = here (λ s.
      if get_default_reclaim_policy config == "delete"
      then call (
          delete_cloud_database_gcp
            (get_dynamic_host_name checksum config s.info.host_params s.claim))
      else pure tt)
