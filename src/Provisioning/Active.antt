-- ===== src/Provisioning/Active.antt =====
-- The active database of a claim while a new one is made, in pkg/databaseclaim/databaseclaim.go.
use db_controller.Prelude.{
  String, Bool, true, false, not, ◌&&◌, if◌then◌else◌, Option, none, some, ◌≡◌, refl, arith,
}
use db_controller.Api.Claim.{Condition, Status}
use db_controller.Api.Condition.{provisioning_condition}
use db_controller.Api.Connection.{ConnectionInfo}
use db_controller.Api.Error.{Err}
use db_controller.Cluster.{Context, Handler, call, here}
use db_controller.DbClient.Connect.{Client, new_postgres_client}
use db_controller.DbUser.{DbUser, new_db_user}
use db_controller.Exec.Frame.{Keeps, attempt-Keeps, bind-Keeps, if-Keeps, rescue-Keeps}
use db_controller.Exec.{attempt, pure, rescue, ◌>>◌}
use db_controller.ConnectionString.Uri.{uri}
use db_controller.Config.{get_dynamic_host_wait_time, get_system_functions}
use db_controller.DbClient.Databases.{manage_system_functions}
use db_controller.DbClient.Roles.{create_role_if_missing}
use db_controller.Mode.{ModeEnum}
use db_controller.Provisioning.{
  host_creds, check_unmanaged, create_database_and_extensions, fill_database, prepare_database,
  reconcile_new_db, use_host,
}
use db_controller.Reconciler.{Reconciler}
use db_controller.StatusManager.{
  Outcome, no_requeue, requeue_in, update_cluster_status, update_host_port_status, clear_error,
  set_condition_and_update_status, set_error, store_error,
}
use db_controller.Users.{
  add_extensions, current_user, is_use_new_db, on_new_db, manage_user_and_extensions,
  manage_user_of, manage_users, rename_users, rotate, rotate_if_due,
}

abbrev pub active : {W : Type 0} → Context W → Status
active s = s.claim.status.active_db

module _ {W : Type 0} (r : Reconciler W) where
  open r use {cluster, provider}

  error-Keeps : (e : Err) → Keeps active (set_error cluster e)
  unfolding set_error store_error set_condition_and_update_status
  error-Keeps e s = ground arith

  clear-Keeps : Keeps active (clear_error cluster)
  unfolding clear_error
  clear-Keeps s = ground arith

  condition-Keeps : (c : Condition) → Keeps active (set_condition_and_update_status cluster c)
  unfolding set_condition_and_update_status
  condition-Keeps c s = ground arith

  rename-Keeps :
      (client : Client) (dbu : DbUser) (current : String)
      → Keeps active (rename_users r client dbu current)
  unfolding rename_users
  rename-Keeps client dbu current s = ground arith

  rotate-Keeps :
      (client : Client) (dbu : DbUser) (current : String)
      → Keeps active (rotate r client dbu current)
  unfolding rotate
  rotate-Keeps client dbu current s = ground arith

  if_due-Keeps :
      (client : Client) (dbu : DbUser) (current : String)
      → Keeps active (rotate_if_due r client dbu current)
  unfolding rotate_if_due
  if_due-Keeps client dbu current s = ground (arith, rotate-Keeps client dbu current s)

  users-Keeps :
      (client : Client) (dbu : DbUser) (current : String)
      → Keeps active (manage_users r client dbu current)
  unfolding manage_users
  users-Keeps client dbu current s =
      grind (arith, rename-Keeps client dbu current, if_due-Keeps client dbu current)

  extend-Keeps :
      (client : Client) (db_name base : String) (b : Bool)
      → Keeps active (add_extensions r client db_name base b)
  unfolding add_extensions
  extend-Keeps client db_name base true s = refl
  extend-Keeps client db_name base false s = refl

  user_of-Keeps :
      (client : Client) (db_name base : String) (mode : ModeEnum) (conn : Option ConnectionInfo)
      → Keeps active (manage_user_of r client db_name base mode conn)
  unfolding manage_user_of add_extensions
  user_of-Keeps client db_name base mode none s = refl
  user_of-Keeps client db_name base mode (some new) s =
      let make = call (create_role_if_missing r.sql client db_name base "public") in
      let extend = λ (b : Bool). add_extensions r client db_name base (b && is_use_new_db mode) in
      let current = current_user r mode new s.claim.status.active_db.connection_info in
      let users = manage_users r client (new_db_user base) current in
      bind-Keeps active make (λ b. extend b >> users) (λ _. refl)
        (λ b.
          bind-Keeps active (extend b) (λ _. users)
            (extend-Keeps client db_name base (b && is_use_new_db mode))
            (λ _. users-Keeps client (new_db_user base) current))
        s

  user-Keeps :
      (client : Client) (db_name base : String) (mode : ModeEnum)
      → Keeps active (manage_user_and_extensions r client db_name base mode)
  unfolding manage_user_and_extensions
  user-Keeps client db_name base mode s =
      user_of-Keeps client db_name base mode s.claim.status.new_db.connection_info s

  unmanaged-Keeps :
      (client : Client) (created : Bool) → Keeps active (check_unmanaged r client created)
  unfolding check_unmanaged
  unmanaged-Keeps client created s = ground arith

  database-Keeps :
      (client : Client) (mode : ModeEnum)
      → Keeps active (create_database_and_extensions r client mode)
  unfolding create_database_and_extensions
  database-Keeps client mode s = grind (arith, unmanaged-Keeps client)

  -- Steps whose errors go to the status, and what follows them.
  or_error-Keeps :
      {A : Type 0} (m : Handler W A) (next : A → Handler W Outcome)
      → Keeps active m
      → ((a : A) → Keeps active (next a))
      → Keeps active (attempt m (set_error cluster) next)
  or_error-Keeps m next k h = attempt-Keeps active m (set_error cluster) next k error-Keeps h

  fill-Keeps : (client : Client) (mode : ModeEnum) → Keeps active (fill_database r client mode)
  unfolding fill_database
  fill-Keeps client mode =
      let users : Handler W (Unit {0}) = here (λ s.
        manage_user_and_extensions r client s.claim.spec.database_name s.claim.spec.username
          mode) in
      let functions : Handler W (Unit {0}) = here (λ s. call (
        manage_system_functions r.sql client s.claim.spec.database_name
          (get_system_functions r.config))) in
      let finish : Unit {0} → Handler W Outcome = λ _. pure no_requeue in
      let manage : Unit {0} → Handler W Outcome =
        λ _. attempt functions (set_error cluster) finish in
      or_error-Keeps (create_database_and_extensions r client mode)
        (λ _. attempt users (set_error cluster) manage) (database-Keeps client mode)
        (λ _.
          or_error-Keeps users manage
            (λ s. user-Keeps client s.claim.spec.database_name s.claim.spec.username mode s)
            (λ _. or_error-Keeps functions finish (λ _. refl) (λ _ _. refl)))

  prepare-Keeps : (mode : ModeEnum) (c : ConnectionInfo) → Keeps active (prepare_database r mode c)
  unfolding prepare_database
  prepare-Keeps mode c s =
      let connect = call (new_postgres_client r.sql "" (uri r.sql.query_escape (some c))) in
      bind-Keeps active connect
        (λ client.
          on_new_db (λ w. update_host_port_status (cluster.now w) c.host c.port c.ssl_mode)
          >> (here (λ v. on_new_db (λ _. update_cluster_status v.info.host_params))
              >> fill_database r client mode))
        (λ _. refl) (λ client v. fill-Keeps client mode _)
        (record s { info = record (s.info) { master_conn_info = c } })

  use_host-Keeps : (mode : ModeEnum) (is_ready : Bool) → Keeps active (use_host r mode is_ready)
  unfolding use_host
  use_host-Keeps mode is_ready =
      let wait : Handler W Outcome = pure (requeue_in (get_dynamic_host_wait_time r.config)) in
      let prepare : Handler W Outcome =
        λ s. rescue (host_creds r s) s (λ _. wait) (prepare_database r mode) in
      bind-Keeps active (clear_error cluster) (λ _. if not is_ready then wait else prepare)
        clear-Keeps
        (λ _.
          if-Keeps active (not is_ready) wait prepare (λ _. refl)
            (λ s.
              rescue-Keeps active (host_creds r s) (λ _. wait) (prepare_database r mode) s
                (λ _ _. refl) (prepare-Keeps mode)))

  -- The making of a new database, with its users, leaves the active database of the claim as it
  -- is, whatever it ends in, if the cloud's provider does.
  pub reconcile_new_db-active :
      (mode : ModeEnum) (s : Context W)
      → Keeps active (provider.manage_cloud_host_aws mode)
      → Keeps active provider.manage_cloud_host_gcp
      → active (reconcile_new_db r mode s).1 ≡ active s
  unfolding reconcile_new_db
  reconcile_new_db-active mode s aws gcp =
      grind
        (arith, aws, gcp, error-Keeps, condition-Keeps provisioning_condition, use_host-Keeps mode)
