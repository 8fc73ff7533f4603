-- ===== src/DbClient/Roles.antt =====
-- Roles, their rights, and the users that work as them.
use db_controller.Prelude.{String, Bool, not, List, ◌==◌, if◌then◌else◌}
use db_controller.Exec.{Exec, pure, ask, ◌>>=◌, ◌>>◌}
use db_controller.Sql.{
  Sql, Statement, create_role, grant_database, grant_schema, grant_tables, grant_sequences,
  grant_admin, grant_regular, grant_read_only, assign_role, allow_create_role, forbid_create_role,
  grant_role, revoke_role, allow_replication, forbid_replication, role_exists, has_create_role,
}
use db_controller.DbClient.Connect.{Client, get_db}

abbrev pub rds_super_user_role : String
rds_super_user_role = "rds_superuser"

-- the role for replication, by the cloud
abbrev pub replication_role : Client → String
replication_role pc = if pc.cloud == "gcp" then "alloydbreplica" else "rds_replication"

abbrev schema_or_public : String → String
schema_or_public schema = if schema == "" then "public" else schema

module _ {W : Type 0} (sql : Sql W) (pc : Client) where
  open sql use {exec, test, roles_of}

  -- RoleExists
  unfoldable pub find_role : String → Exec W Bool
  find_role name = ask (test pc.dsn (role_exists name))

  -- grantRolePrivileges
  unfoldable pub grant_role_privileges : String → String → String → Exec W (Unit {0})
  unfolding get_db
  grant_role_privileges db_name role schema = do
    db ← get_db sql pc db_name
    exec db (grant_database db_name role)
    exec db (grant_schema schema role)
    exec db (grant_tables schema role)
    exec db (grant_sequences schema role)

  -- CreateRole: whether it was created
  unfoldable pub create_role_if_missing : String → String → String → Exec W Bool
  unfolding grant_role_privileges
  create_role_if_missing db_name role schema = do
    exists ← ask (test pc.dsn (role_exists role))
    (if exists then pure tt else exec pc.dsn (create_role role))
    grant_role_privileges db_name role (schema_or_public schema)
    pure (not exists)

  -- CreateAdminRole, CreateRegularRole and CreateReadOnlyRole, by the rights that they grant
  unfoldable pub create_role_with :
      (String → String → String → Statement) → String → String → String → Exec W Bool
  unfolding create_role_if_missing get_db
  create_role_with rights db_name role schema = do
    created ← create_role_if_missing db_name role schema
    (if created
        then (get_db sql pc db_name >>= λ db. exec db (rights db_name schema role))
        else pure tt)
    pure created

  unfoldable pub create_admin_role : String → String → String → Exec W Bool
  unfolding create_role_with
  create_admin_role = create_role_with grant_admin

  unfoldable pub create_regular_role : String → String → String → Exec W Bool
  unfolding create_role_with
  create_regular_role = create_role_with grant_regular

  unfoldable pub create_read_only_role : String → String → String → Exec W Bool
  unfolding create_role_with
  create_read_only_role = create_role_with grant_read_only

  -- AssignRoleToUser
  unfoldable pub assign_role_to_user : String → String → Exec W (Unit {0})
  assign_role_to_user user role = exec pc.dsn (assign_role user role)

  -- GetUserRoles
  unfoldable pub get_user_roles : String → Exec W (List String)
  get_user_roles user = ask (roles_of pc.dsn user)

  -- RevokeAccessToRole
  unfoldable pub revoke_access_to_role : String → String → Exec W (Unit {0})
  revoke_access_to_role user role = exec pc.dsn (revoke_role role user)

  -- ManageCreateRole
  unfoldable pub manage_create_role : String → Bool → Exec W (Unit {0})
  manage_create_role role enable = do
    exists ← ask (test pc.dsn (role_exists role))
    if not exists then pure tt else do
      allowed ← ask (test pc.dsn (has_create_role role))
      (if allowed
          then (if enable then pure tt else exec pc.dsn (forbid_create_role role))
          else (if enable then exec pc.dsn (allow_create_role role) else pure tt))

  -- ManageSuperUserRole
  unfoldable pub manage_super_user_role : String → Bool → Exec W (Unit {0})
  manage_super_user_role user enable =
      if enable
      then exec pc.dsn (grant_role rds_super_user_role user)
      else exec pc.dsn (revoke_role rds_super_user_role user)

  -- ManageReplicationRole
  unfoldable pub manage_replication_role : String → Bool → Exec W (Unit {0})
  manage_replication_role user enable = do
    exists ← ask (test pc.dsn (role_exists user))
    if not exists then pure tt else do
      is_cloud ← ask (test pc.dsn (role_exists (replication_role pc)))
      (if is_cloud
          then (if enable
              then exec pc.dsn (grant_role (replication_role pc) user)
              else exec pc.dsn (revoke_role (replication_role pc) user))
          else (if enable
              then exec pc.dsn (allow_replication user)
              else exec pc.dsn (forbid_replication user)))
