-- ===== src/Migration/Begin.antt =====
-- pkg/databaseclaim/databaseclaim.go: reconcileMigrateToNewDB, and reconcileMigrationInProgress up
-- to its loop, which gathers the credentials of both databases.
use db_controller.Prelude.{
  String, Bool, true, false, ◌&&◌, ltz, pos, none, some, before, ◌==◌, if◌then◌else◌,
}
use db_controller.Api.Claim.{DatabaseClaim}
use db_controller.Api.Connection.{ConnectionInfo, validate}
use db_controller.Api.Error.{Result, ok, err, message, ◌>>=◌ as ◌>>>=◌}
use db_controller.Cluster.{Handler, call, here}
use db_controller.Config.{
  get_cloud, get_dynamic_host_wait_time, get_password_rotation_period, get_pg_temp_folder,
  service_namespace,
}
use db_controller.ConnectionString.Uri.{parse_uri, uri}
use db_controller.Credentials.{get_master_creds, validate_and_update_creds_dsn}
use db_controller.Credentials.Source.{fetch_admin_from_source_data_from, or_else, populate_creds}
use db_controller.Exec.{pure, lift, modify, attempt, rescue, ◌>>=◌, ◌>>◌}
use db_controller.Migration.{migrate}
use db_controller.Mode.{
  ModeEnum, migration_in_progress, migrate_existing_to_new_db, upgrade_db_in_progress,
  initiate_db_upgrade,
}
use db_controller.Pgctl.Postgres.{Config}
use db_controller.Pgctl.State.{State, initial, enum_string, get_replicator_state}
use db_controller.Provisioning.{host_creds, reconcile_new_db, set_migration_state}
use db_controller.Reconciler.{Reconciler}
use db_controller.RequestInfo.{deref}
use db_controller.Secrets.{
  get_source_dsn_from_temp_secret, get_src_app_dsn_from_secret,
  get_target_password_from_temp_secret, set_source_dsn_in_temp_secret,
  set_target_password_in_temp_secret,
}
use db_controller.StatusManager.{
  Outcome, requeue_in, update_status, set_error, migration_in_progress_status,
}

-- what the loop is given: the source's DSN of the application, the target's connection, the
-- configuration of the states, and the first state
pub record Gathered : Type 0 where
  pub source_app_dsn : String
  pub target_app_conn : ConnectionInfo
  pub config : Config
  pub state : State

abbrev pub is_migration : ModeEnum → Bool
is_migration migration_in_progress = true
is_migration migrate_existing_to_new_db = true
is_migration _ = false

abbrev pub is_upgrade : ModeEnum → Bool
is_upgrade upgrade_db_in_progress = true
is_upgrade initiate_db_upgrade = true
is_upgrade _ = false

module _ {W : Type 0} (r : Reconciler W) where
  open r use {cluster, sql, databases, config}

  -- the credentials that are kept for the migration, behind the making of the new database
  unfoldable pub keep_credentials : Handler W (Unit {0})
  unfolding set_target_password_in_temp_secret get_src_app_dsn_from_secret
      set_source_dsn_in_temp_secret
  keep_credentials = do
    here (λ s.
        if s.info.temp_secret == ""
        then pure tt
        else call (set_target_password_in_temp_secret cluster s.info.temp_secret s.claim))
    dsn ← here (λ s. lift (get_src_app_dsn_from_secret cluster s.claim s.world))
    here (λ s. call (set_source_dsn_in_temp_secret cluster dsn s.claim))

  -- reconcileMigrateToNewDB behind its first status
  unfoldable pub migrate_to_new_db : ModeEnum → Handler W Outcome
  unfolding reconcile_new_db keep_credentials set_error migration_in_progress_status
  migrate_to_new_db mode = attempt (reconcile_new_db r mode) (set_error cluster) (λ result.
      if ltz (pos 0) result.requeue_after
      then pure result
      else attempt keep_credentials (set_error cluster) (λ _. migration_in_progress_status cluster))

  -- reconcileMigrateToNewDB
  unfoldable pub reconcile_migrate_to_new_db : ModeEnum → Handler W Outcome
  unfolding enum_string update_status set_error migrate_to_new_db
  reconcile_migrate_to_new_db mode = here (λ s.
      if s.claim.status.migration_state == ""
      then attempt (set_migration_state (enum_string initial) >> update_status cluster)
          (set_error cluster) (λ _. migrate_to_new_db mode)
      else migrate_to_new_db mode)

  -- the DSN of the application, which may be in the temporary secret
  unfoldable pub source_dsn : DatabaseClaim → W → Result String
  unfolding get_src_app_dsn_from_secret get_source_dsn_from_temp_secret
  source_dsn claim w = get_src_app_dsn_from_secret cluster claim w >>>= λ found.
      (if found == "" then get_source_dsn_from_temp_secret cluster claim w else ok found)
      >>>= λ dsn. if dsn == "" then err (message "unable_to_find_source_user_dsn") else ok dsn

  -- the administrator's connection of the database that is migrated, where the claim names it
  unfoldable pub existing_master : DatabaseClaim → W → Result ConnectionInfo
  unfolding fetch_admin_from_source_data_from parse_uri
  existing_master claim w = elim claim.spec.source_data_from [
    | none ↦ err (message "sourceDataFrom is nil")
    | some source ↦ elim source.database [
      | none ↦ err (message "sourceDataFrom.Database is nil")
      | some _ ↦ fetch_admin_from_source_data_from cluster sql claim w >>>= parse_uri sql
    ]
  ]

  -- and where it is the active database
  unfoldable pub active_master : DatabaseClaim → String → W → Result ConnectionInfo
  unfolding get_master_creds parse_uri
  active_master claim dsn w = deref claim.status.active_db.connection_info >>>= λ active.
      get_master_creds cluster (service_namespace config) (before b'.' active.host)
        claim.spec.database_name active.ssl_mode w
      >>>= λ master. parse_uri sql dsn >>>= λ c.
          ok (record c { username = master.username; password = master.password })

  unfoldable pub source_master : ModeEnum → DatabaseClaim → String → W → Result ConnectionInfo
  unfolding existing_master active_master
  source_master mode claim dsn w =
      if is_migration mode
      then existing_master claim w
      else if is_upgrade mode
      then active_master claim dsn w
      else err (message "unsupported operational mode")

  -- the target's connection of the application
  unfoldable pub target_connection : ConnectionInfo → DatabaseClaim → W → Result ConnectionInfo
  unfolding get_target_password_from_temp_secret validate
  target_connection new claim w = deref claim.status.active_db.connection_info >>>= λ active.
      if new.host == active.host && new.port == active.port
      then err (message "active and new database can not be the same")
      else (get_target_password_from_temp_secret cluster claim w >>>= λ password.
          let c = record new { password = password } in validate c >>>= λ _. ok c)

  -- All that is read before the loop; `new` is status.newDB's connection, `master` that of its host.
  unfoldable pub gather :
      ModeEnum → ConnectionInfo → ConnectionInfo → DatabaseClaim → W → Result Gathered
  unfolding target_connection source_dsn populate_creds source_master uri get_replicator_state
  gather mode new master claim w = target_connection new claim w >>>= λ target.
      source_dsn claim w >>>= λ dsn.
      or_else (populate_creds cluster sql claim (service_namespace config) w)
        (λ _. err (message "unable to populate credentials"))
      >>>= λ _. source_master mode claim dsn w >>>= λ source.
          get_replicator_state claim.status.migration_state >>>= λ state. ok (record {
            source_app_dsn = dsn;
            target_app_conn = target;
            config = record {
              cloud = get_cloud config;
              source_db_admin_dsn = uri sql.query_escape (some source);
              source_db_user_dsn = dsn;
              target_db_admin_dsn = uri sql.query_escape (some master);
              target_db_user_dsn = uri sql.query_escape (some target);
              export_file_path = get_pg_temp_folder config;
            };
            state = state;
          })

  -- the users of both databases can connect
  unfoldable pub check_users : Gathered → Handler W (Unit {0})
  unfolding validate_and_update_creds_dsn
  check_users g =
      call
        (validate_and_update_creds_dsn sql g.config.source_db_admin_dsn g.config.source_db_user_dsn)
      >> call (
          validate_and_update_creds_dsn sql g.config.target_db_admin_dsn
            g.config.target_db_user_dsn)

  -- the part behind the reading of the host's credentials
  unfoldable pub resume_migration : ModeEnum → ConnectionInfo → ConnectionInfo → Handler W Outcome
  unfolding gather check_users migrate set_error
  resume_migration mode new master =
      modify (λ s. record s { info = record (s.info) { master_conn_info = master } })
      >> attempt
          (here (λ s. lift (gather mode new master s.claim s.world)) >>= λ g.
            check_users g >> pure g)
          (set_error cluster)
          (λ g.
            migrate cluster databases g.config sql.query_escape
              (get_password_rotation_period config) g.source_app_dsn g.target_app_conn g.state)

  -- reconcileMigrationInProgress
  unfoldable pub reconcile_migration_in_progress : ModeEnum → Handler W Outcome
  unfolding host_creds get_dynamic_host_wait_time resume_migration set_error
  reconcile_migration_in_progress mode s = elim s.claim.status.new_db.connection_info [
    | none ↦ set_error cluster (message "status.newdb is empty") s
    | some new ↦
        if new.host == ""
        then set_error cluster (message "status.newdb is empty") s
        else rescue (host_creds r s) s (λ _. pure (requeue_in (get_dynamic_host_wait_time config)))
            (resume_migration mode new)
  ]
