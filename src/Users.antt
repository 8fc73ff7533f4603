-- ===== src/Users.antt =====
-- The users of a database, in pkg/databaseclaim/databaseclaim.go: manageUserAndExtensions; and the client of getClientForExistingDB.

pub mod Login
use db_controller.Prelude.{
  ℕ, ℤ, lez, since, String, Bool, true, false, not, ◌&&◌, Option, none, some, ◌==◌, ◌<>◌,
  if◌then◌else◌,
}
use db_controller.Api.Connection.{ConnectionInfo}
use db_controller.Api.Claim.{Status}
use db_controller.Api.Error.{ok, message, wrapped}
use db_controller.Cluster.{Handler, call, here}
use db_controller.Config.{get_password_rotation_period}
use db_controller.ConnectionString.Uri.{uri}
use db_controller.DbClient.Connect.{Client, new_postgres_client}
use db_controller.DbClient.Existing.{validate_connection_parameters}
use db_controller.Passwords.{generate_password}
use db_controller.DbClient.Databases.{create_special_extensions}
use db_controller.DbClient.Roles.{
  create_role_if_missing, manage_create_role, manage_replication_role, manage_super_user_role,
}
use db_controller.DbClient.Users.{
  create_user_if_missing, rename_user_if_there, update_password, update_user,
}
use db_controller.DbUser.{
  DbUser, new_db_user, next_user, is_user_changed, trim_user_suffix, suffix_a, suffix_b,
}
use db_controller.Exec.{Exec, pure, fail, lift, modify, attempt, ◌>>=◌, ◌>>◌}
use db_controller.Mode.{ModeEnum, use_new_db}
use db_controller.Reconciler.{Reconciler}
use db_controller.StatusManager.{with_status, update_user_status, update_host_port_status}

abbrev pub is_use_new_db : ModeEnum → Bool
is_use_new_db use_new_db = true
is_use_new_db _ = false

-- a change of status.newDB
abbrev pub on_new_db : {W : Type 0} → (W → Status → Status) → Handler W (Unit {0})
on_new_db f = modify (λ s. record s {
  claim = with_status (λ st. record st { new_db = f s.world st.new_db }) s.claim;
})

-- whether the password of a user is to be set, at a time
unfoldable pub rotation_due : ℕ → ℤ → Option ℕ → Option ℕ → Bool
rotation_due time rotation none active = true
rotation_due time rotation (some _) none = false
rotation_due time rotation (some _) (some t) = lez rotation (since time t)

module _ {W : Type 0} (r : Reconciler W) where
  open r use {cluster, sql, passwords, config}

  -- getClientForExistingDB
  unfoldable pub get_client_for_existing_db : Option ConnectionInfo → Handler W Client
  unfolding validate_connection_parameters new_postgres_client uri update_host_port_status
  get_client_for_existing_db conn = lift (validate_connection_parameters conn) >>= λ c.
      on_new_db (λ w. update_host_port_status (cluster.now w) c.host c.port c.ssl_mode)
      >> call (new_postgres_client sql "" (uri sql.query_escape (some c)))

  -- UpdateUserStatus on status.newDB, with the password that it leaves in the request
  unfoldable pub set_user : String → String → Handler W (Unit {0})
  unfolding update_user_status
  set_user user password =
      modify (λ s. record s { info = record (s.info) { temp_secret = password } })
      >> on_new_db (λ w. update_user_status (cluster.now w) user)

  -- the user that a rotation starts from
  abbrev pub current_user : ModeEnum → ConnectionInfo → Option ConnectionInfo → String
  current_user mode new none = new.username
  current_user mode new (some active) =
      if new.username == "" && not (uri sql.query_escape (some active) == "") && is_use_new_db mode
      then active.username
      else new.username

  -- both users of another role become those of this one
  unfoldable pub rename_users : Client → DbUser → String → Handler W (Unit {0})
  unfolding trim_user_suffix rename_user_if_there update_user generate_password set_user
  rename_users client dbu current = do
    call (rename_user_if_there sql client (trim_user_suffix current) dbu.rolename)
    password ← call (generate_password passwords config)
    call (
        update_user sql client (trim_user_suffix current <> suffix_a) dbu.user_a dbu.rolename
          password)
    set_user dbu.user_a password
    password ← call (generate_password passwords config)
    call (
        update_user sql client (trim_user_suffix current <> suffix_b) dbu.user_b dbu.rolename
          password)

  -- a new password for the next user
  unfoldable pub rotate : Client → DbUser → String → Handler W (Unit {0})
  unfolding next_user create_user_if_missing update_password generate_password set_user
  rotate client dbu current = do
    password ← call (generate_password passwords config)
    call (create_user_if_missing sql client (next_user dbu current) dbu.rolename password)
    call (update_password sql client (next_user dbu current) password)
    set_user (next_user dbu current) password

  -- an error counts only where the right is asked for
  unfoldable pub unless_revoked : String → Bool → Exec W (Unit {0}) → Exec W (Unit {0})
  unless_revoked text enable m =
      attempt m (λ e. if enable then fail (wrapped text e) else pure tt) pure

  unfoldable pub manage_rights : Client → DbUser → String → Bool → Bool → Exec W (Unit {0})
  unfolding manage_super_user_role manage_create_role manage_replication_role next_user
      unless_revoked
  manage_rights client dbu current super_user replication = do
    unless_revoked ("managesuperuserrole on role " <> dbu.rolename <> ": ") super_user
        (manage_super_user_role sql client dbu.rolename super_user)
    unless_revoked ("managecreaterole on role " <> dbu.rolename <> ": ") true
        (manage_create_role sql client dbu.rolename super_user)
    unless_revoked ("managereplicationrole on role " <> current <> ": ") replication
        (manage_replication_role sql client current replication)
    unless_revoked ("managereplicationrole on role " <> next_user dbu current <> ": ") replication
        (manage_replication_role sql client (next_user dbu current) replication)

  unfoldable pub rotate_if_due : Client → DbUser → String → Handler W (Unit {0})
  unfolding rotation_due rotate
  rotate_if_due client dbu current = here (λ s.
      if rotation_due (cluster.now s.world) (get_password_rotation_period config)
        s.claim.status.new_db.user_updated_at s.claim.status.active_db.user_updated_at
      then rotate client dbu current
      else pure tt)

  abbrev pub manage_requested_rights : Client → DbUser → String → Handler W (Unit {0})
  manage_requested_rights client dbu current = here (λ s.
      call
        (manage_rights client dbu current s.info.enable_super_user s.info.enable_replication_role))

  -- the users, behind the creation of their role
  unfoldable pub manage_users : Client → DbUser → String → Handler W (Unit {0})
  unfolding is_user_changed rename_users rotate_if_due manage_rights
  manage_users client dbu current =
      (if is_user_changed dbu current then rename_users client dbu current else pure tt)
      >> (rotate_if_due client dbu current >> manage_requested_rights client dbu current)

  -- the extensions of a role that is new
  unfoldable pub add_extensions : Client → String → String → Bool → Handler W (Unit {0})
  unfolding create_special_extensions
  add_extensions client db_name base new =
      if new then call (create_special_extensions sql client db_name base) else pure tt

  -- manageUserAndExtensions, by the connection of status.newDB
  unfoldable pub manage_user_of :
      Client → String → String → ModeEnum → Option ConnectionInfo → Handler W (Unit {0})
  unfolding manage_users create_role_if_missing add_extensions new_db_user uri
  manage_user_of client db_name base mode none = fail (message "newDB connection info is nil")
  manage_user_of client db_name base mode (some new) = here (λ s.
      call (create_role_if_missing sql client db_name base "public") >>= λ created.
      add_extensions client db_name base (created && is_use_new_db mode)
      >> manage_users client (new_db_user base)
          (current_user mode new s.claim.status.active_db.connection_info))

  -- manageUserAndExtensions, on status.newDB and status.activeDB
  unfoldable pub manage_user_and_extensions :
      Client → String → String → ModeEnum → Handler W (Unit {0})
  unfolding manage_user_of
  manage_user_and_extensions client db_name base mode =
      here (λ s. manage_user_of client db_name base mode s.claim.status.new_db.connection_info)
