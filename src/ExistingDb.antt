-- ===== src/ExistingDb.antt =====
-- pkg/databaseclaim/databaseclaim.go: reconcileUseExistingDB.
pub mod HandOut
use db_controller.Prelude.{
  ℕ, ltz, since, Bool, false, ◌&&◌, Option, none, some, ◌==◌, if◌then◌else◌,
}
use db_controller.Api.Claim.{using_existing_db}
use db_controller.Api.Connection.{ConnectionInfo}
use db_controller.Api.Error.{do_not_update_status}
use db_controller.Cluster.{Context, Handler, call, here}
use db_controller.Config.{get_cloud, get_password_rotation_period, get_system_functions}
use db_controller.ConnectionString.Uri.{parse_uri}
use db_controller.Credentials.Source.{fetch_admin_from_source_data_from}
use db_controller.DbClient.Databases.{create_default_extensions, manage_system_functions}
use db_controller.Exec.{pure, fail, crash, lift, ◌>>=◌, ◌>>◌}
use db_controller.Mode.{ModeEnum}
use db_controller.Reconciler.{Reconciler}
use db_controller.RequestInfo.{deref}
use db_controller.Secrets.{create_or_update_secret, set_master_password_in_temp_secret}
use db_controller.StatusManager.{update_db_status, update_status}
use db_controller.Users.{get_client_for_existing_db, manage_user_and_extensions, on_new_db}

module _ {W : Type 0} (r : Reconciler W) where
  open r use {cluster, sql, config}

  -- the secret of the claim, with the password that this request has set
  unfoldable pub hand_out_to : Option ConnectionInfo → Handler W (Unit {0})
  unfolding create_or_update_secret
  hand_out_to none = crash
  hand_out_to (some c) = here (λ s. call (
      create_or_update_secret cluster sql.query_escape s.claim
        (record c { password = s.info.temp_secret }) (get_cloud config)))

  unfoldable pub hand_out : Handler W (Unit {0})
  unfolding hand_out_to
  hand_out = here (λ s.
      if s.info.temp_secret == ""
      then pure tt
      else hand_out_to s.claim.status.new_db.connection_info)

  abbrev updated_recently : Context W → Option ℕ → Bool
  updated_recently s none = false
  updated_recently s (some t) =
      ltz (since (cluster.now s.world) t) (get_password_rotation_period config)

  -- status.newDB takes over from status.activeDB where both are of the same host
  unfoldable pub keep_active : ConnectionInfo → Handler W (Unit {0})
  keep_active c = here (λ s.
      if s.claim.status.active_db.db_state == using_existing_db
      then (lift (deref s.claim.status.active_db.connection_info) >>= λ active.
          if active.host == c.host && active.port == c.port
          then on_new_db (λ _ _. s.claim.status.active_db)
          else pure tt)
      else pure tt)

  -- the part behind the source's credentials
  unfoldable pub use_existing : ModeEnum → ConnectionInfo → Handler W (Unit {0})
  unfolding keep_active set_master_password_in_temp_secret get_client_for_existing_db
      update_db_status manage_user_and_extensions update_status hand_out create_default_extensions
      manage_system_functions
  use_existing mode c = do
    keep_active c
    here (λ s. on_new_db (λ _ st. record st {
      db_state = using_existing_db;
      source_data_from = s.claim.spec.source_data_from;
    }))
    here (λ s. call (set_master_password_in_temp_secret cluster c.password s.claim))
    client ← get_client_for_existing_db r (some c)
    on_new_db (λ w. update_db_status (cluster.now w) c.database_name)
    here (λ s. manage_user_and_extensions r client c.database_name s.claim.spec.username mode)
    update_status cluster
    hand_out
    call (create_default_extensions sql client c.database_name)
    call (manage_system_functions sql client c.database_name (get_system_functions config))

  -- reconcileUseExistingDB
  unfoldable pub reconcile_use_existing_db : ModeEnum → Handler W (Unit {0})
  unfolding fetch_admin_from_source_data_from parse_uri use_existing
  reconcile_use_existing_db mode = here (λ s.
      if updated_recently s s.claim.status.active_db.user_updated_at
      then fail do_not_update_status
      else (lift (fetch_admin_from_source_data_from cluster sql s.claim s.world) >>= λ dsn.
          lift (parse_uri sql dsn) >>= use_existing mode))
