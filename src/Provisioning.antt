-- ===== src/Provisioning.antt =====
-- pkg/databaseclaim/databaseclaim.go: reconcileNewDB, with the database that it creates, and
-- providerCRAlreadyExists.
pub mod Active
use db_controller.Prelude.{
  String, Bool, true, false, not, ◌&&◌, ◌||◌, Option, none, some, ◌==◌, ◌<>◌, if◌then◌else◌,
}
use db_controller.Api.Condition.{provisioning_condition}
use db_controller.Api.Connection.{ConnectionInfo}
use db_controller.Api.Error.{Result, ok, err, panic, message, wrapped}
use db_controller.Cluster.{Context, Handler, call, here}
use db_controller.Config.{
  get_cloud, get_default_ssl_mode, get_dynamic_host_wait_time, get_system_functions,
  service_namespace,
}
use db_controller.ConnectionString.Uri.{uri}
use db_controller.Credentials.{get_master_creds}
use db_controller.DbClient.Connect.{Client, new_postgres_client}
use db_controller.DbClient.Databases.{
  create_database_if_missing, create_default_extensions, find_schema, ib_schema,
  manage_system_functions,
}
use db_controller.Exec.{pure, fail, lift, modify, attempt, rescue, ◌>>=◌, ◌>>◌}
use db_controller.HostName.{get_dynamic_host_name}
use db_controller.Mode.{ModeEnum}
use db_controller.Pgctl.State.{initial, enum_string}
use db_controller.Reconciler.{Reconciler}
use db_controller.StatusManager.{
  Outcome, no_requeue, requeue_in, with_status, set_condition_and_update_status, set_error,
  clear_error, update_cluster_status, update_db_status, update_host_port_status,
}
use db_controller.Users.{is_use_new_db, manage_user_and_extensions, on_new_db}

abbrev pub set_migration_state : {W : Type 0} → String → Handler W (Unit {0})
set_migration_state state =
    modify
      (λ s. record s { claim = with_status (λ st. record st { migration_state = state }) s.claim })

-- whether status.newDB has no name of a database yet
abbrev is_unnamed : Bool → Option ConnectionInfo → Result Bool
is_unnamed true conn = ok true
is_unnamed false none = panic
is_unnamed false (some c) = ok (c.database_name == "")

module _ {W : Type 0} (r : Reconciler W) where
  open r use {cluster, sql, provider, config, checksum}

  -- A migration does not begin on a database that has the schema of a managed one.
  unfoldable pub check_unmanaged : Client → Bool → Handler W (Unit {0})
  unfolding find_schema enum_string
  check_unmanaged client created = here (λ s.
      if not created && s.claim.status.migration_state == enum_string initial
      then (attempt (call (find_schema sql client ib_schema))
          (λ e. fail (wrapped "failed to check schema existence: " e))
          (λ exists.
            if exists
            then set_migration_state ""
              >> fail
                  (message "migration aborted: attempt to migrate to a previously managed database")
            else pure tt))
      else pure tt)

  -- createDatabaseAndExtensions
  unfoldable pub create_database_and_extensions : Client → ModeEnum → Handler W (Unit {0})
  unfolding create_database_if_missing create_default_extensions check_unmanaged update_db_status
  create_database_and_extensions client mode = here (λ s. do
    created ← call (create_database_if_missing sql client s.claim.spec.database_name)
    check_unmanaged client created
    (if created && is_use_new_db mode
        then call (create_default_extensions sql client s.claim.spec.database_name)
        else pure tt)
    unnamed ← here (λ v. lift (is_unnamed created v.claim.status.new_db.connection_info))
    (if unnamed
        then on_new_db (λ w. update_db_status (cluster.now w) s.claim.spec.database_name)
        else pure tt))

  -- the part of reconcileNewDB behind the client: three steps, whose errors go to the status
  unfoldable pub fill_database : Client → ModeEnum → Handler W Outcome
  unfolding create_database_and_extensions manage_user_and_extensions manage_system_functions
      set_error
  fill_database client mode =
      attempt (create_database_and_extensions client mode) (set_error cluster) (λ _.
        attempt
          (here (λ s.
            manage_user_and_extensions r client s.claim.spec.database_name s.claim.spec.username
              mode))
          (set_error cluster)
          (λ _.
            attempt
              (here (λ s. call (
                manage_system_functions sql client s.claim.spec.database_name
                  (get_system_functions config))))
              (set_error cluster) (λ _. pure no_requeue)))

  -- the part behind the reading of the master's credentials
  unfoldable pub prepare_database : ModeEnum → ConnectionInfo → Handler W Outcome
  unfolding new_postgres_client uri update_host_port_status update_cluster_status fill_database
  prepare_database mode c = do
    modify (λ s. record s { info = record (s.info) { master_conn_info = c } })
    client ← call (new_postgres_client sql "" (uri sql.query_escape (some c)))
    on_new_db (λ w. update_host_port_status (cluster.now w) c.host c.port c.ssl_mode)
    here (λ s. on_new_db (λ _. update_cluster_status s.info.host_params))
    fill_database client mode

  -- GetMasterCredsDeprecated for the host of the claim
  unfoldable pub host_creds : Context W → Result ConnectionInfo
  unfolding get_master_creds get_dynamic_host_name
  host_creds s =
      get_master_creds cluster (service_namespace config)
        (get_dynamic_host_name checksum config s.info.host_params s.claim)
        s.claim.spec.database_name (get_default_ssl_mode config) s.world

  -- the part behind the cloud's host
  unfoldable pub use_host : ModeEnum → Bool → Handler W Outcome
  unfolding clear_error get_dynamic_host_wait_time host_creds prepare_database
  use_host mode is_ready =
      clear_error cluster
      >> (if not is_ready then pure (requeue_in (get_dynamic_host_wait_time config)) else (λ s.
          rescue (host_creds s) s (λ _. pure (requeue_in (get_dynamic_host_wait_time config)))
            (prepare_database mode)))

  -- reconcileNewDB
  unfoldable pub reconcile_new_db : ModeEnum → Handler W Outcome
  unfolding set_condition_and_update_status set_error use_host
  reconcile_new_db mode =
      set_condition_and_update_status cluster provisioning_condition
      >> (if get_cloud config == "aws"
          then provider.manage_cloud_host_aws mode >>= use_host mode
          else if get_cloud config == "gcp"
          then provider.manage_cloud_host_gcp >>= use_host mode
          else set_error cluster (message "cloud not supported, check .Values.cloud"))

  -- crExists
  abbrev cr_exists : Result (Unit {0}) → Bool
  cr_exists (ok _) = true
  cr_exists _ = false

  -- providerCRAlreadyExists
  unfoldable pub provider_cr_already_exists : Context W → Result Bool
  unfolding get_dynamic_host_name
  provider_cr_already_exists s =
      let host = get_dynamic_host_name checksum config s.info.host_params s.claim in
      if get_cloud config == "aws" || get_cloud config == "gcp"
      then ok (
          cr_exists (provider.get_cluster host s.world)
          && cr_exists (provider.get_instance host s.world))
      else err (message ("unsupported cloud provider: " <> get_cloud config))
