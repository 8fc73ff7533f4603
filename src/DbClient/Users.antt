-- ===== src/DbClient/Users.antt =====
-- Users with passwords.
use db_controller.Prelude.{String, Bool, true, false, not, ◌==◌, if◌then◌else◌}
use db_controller.Api.Error.{message}
use db_controller.Exec.{Exec, pure, fail, ask, attempt, ◌>>=◌, ◌>>◌}
use db_controller.Sql.{
  Sql, create_login, create_user, alter_password, rename_user, drop_user, role_exists, user_exists,
}
use db_controller.DbClient.Connect.{Client}
use db_controller.DbClient.Roles.{assign_role_to_user}

module _ {W : Type 0} (sql : Sql W) (pc : Client) where
  open sql use {exec, test}

  -- UserExists
  unfoldable pub find_user : String → Exec W Bool
  find_user user = ask (test pc.dsn (user_exists user))

  -- DeleteUser: an error of the last statement is only logged
  unfoldable pub delete_user : String → String → String → Exec W (Unit {0})
  delete_user db_name user heir = if user == "" then fail (message "an empty username") else do
    exists ← ask (test pc.dsn (user_exists user))
    (if exists
        then attempt (exec pc.dsn (drop_user user heir db_name)) (λ _. pure tt) pure
        else pure tt)

  -- CreateUser: whether it was created
  unfoldable pub create_user_if_missing : String → String → String → Exec W Bool
  unfolding assign_role_to_user
  create_user_if_missing user role password = do
    exists ← ask (test pc.dsn (user_exists user))
    if exists then pure false else do
      exec pc.dsn
          (if role == "" then create_user user password else create_login user password role)
      (if role == "" then pure tt else assign_role_to_user sql pc user role)
      pure true

  -- RenameUser
  unfoldable pub rename_user_if_there : String → String → Exec W (Unit {0})
  rename_user_if_there old new = do
    exists ← ask (test pc.dsn (role_exists old))
    (if exists then exec pc.dsn (rename_user old new) else pure tt)

  -- UpdatePassword
  unfoldable pub update_password : String → String → Exec W (Unit {0})
  update_password user password =
      if password == ""
      then fail (message "an empty password")
      else exec pc.dsn (alter_password user password)

  -- UpdateUser
  unfoldable pub update_user : String → String → String → String → Exec W (Unit {0})
  unfolding rename_user_if_there assign_role_to_user update_password
  update_user old new role password = do
    exists ← ask (test pc.dsn (role_exists old))
    if not exists then pure tt else do
      rename_user_if_there old new
      assign_role_to_user sql pc new role
      update_password new password
