-- ===== src/Credentials.antt =====
-- Credentials: pkg/databaseclaim/creds.go and GetMasterCredsDeprecated of pkg/kctlutils/kctl.go.
pub mod Laws
pub mod Source
use db_controller.Prelude.{String, Bool, ◌||◌, Option, none, some, ◌==◌, ◌<>◌, if◌then◌else◌}
use db_controller.Api.Error.{Err, Result, ok, err, panic, message, wrapped}
use db_controller.Api.Connection.{ConnectionInfo}
use db_controller.Cluster.{Cluster}
use db_controller.Exec.{Exec, pure, fail, lift, ask, attempt, rescue, ◌>>=◌, ◌>>◌}
use db_controller.Secrets.{Data, data_at}
use db_controller.Sql.{Sql}
use db_controller.DbClient.Connect.{Client, wrapping, new_postgres_client, ping_client}
use db_controller.DbClient.Users.{update_password}

abbrev password_of : Option String → Result String
password_of none = err (message "password unavailable to update")
password_of (some p) = if p == "" then err (message "password unavailable to update") else ok p

module _ {W : Type 0} (sql : Sql W) where
  open sql use {ping, parse_url}

  -- the part of validateAndUpdateCreds behind the first ping of the user
  unfoldable pub repair_creds : Client → String → Exec W (Unit {0})
  unfolding update_password
  repair_creds admin dsn = lift (parse_url dsn) >>= λ u.
      lift (password_of u.password) >>= λ password.
      update_password sql admin u.username password
      >> wrapping "failed_to_ping_after_update: " (ask (ping dsn))

  -- validateAndUpdateCreds
  unfoldable pub validate_and_update_creds : Client → String → Exec W (Unit {0})
  unfolding ping_client new_postgres_client repair_creds
  validate_and_update_creds admin dsn = if dsn == "" then pure tt else do
    wrapping "unable_connect: " (ping_client sql admin)
    wrapping "unable_create_dbclient: " (new_postgres_client sql "" dsn)
    attempt (ask (ping dsn)) (λ _. repair_creds admin dsn) pure

  -- validateAndUpdateCredsDSN
  unfoldable pub validate_and_update_creds_dsn : String → String → Exec W (Unit {0})
  unfolding new_postgres_client validate_and_update_creds
  validate_and_update_creds_dsn admin_dsn dsn =
      new_postgres_client sql "" admin_dsn >>= λ admin. validate_and_update_creds admin dsn

-- the connection information in the data of a secret of Crossplane
abbrev pub master_creds : String → String → Data → ConnectionInfo
master_creds database_name ssl_mode d = record {
  host = data_at "endpoint" d;
  port = data_at "port" d;
  database_name = database_name;
  username = data_at "username" d;
  password = data_at "password" d;
  ssl_mode = ssl_mode;
}

abbrev check_complete : ConnectionInfo → Result ConnectionInfo
check_complete c =
    if c.host == "" || c.port == "" || c.username == "" || c.password == ""
    then err (message "generated secret is incomplete")
    else ok c

module _ {W : Type 0} (cluster : Cluster W) where
  open cluster use {get_secret}

  abbrev pub complete_creds : Result Data → String → String → Result ConnectionInfo
  complete_creds (ok d) database_name ssl_mode =
      check_complete (master_creds database_name ssl_mode d)
  complete_creds (err e) database_name ssl_mode = err e
  complete_creds panic database_name ssl_mode = panic

  -- GetMasterCredsDeprecated, of a client with this namespace
  unfoldable pub get_master_creds : String → String → String → String → W → Result ConnectionInfo
  get_master_creds service_ns secret_name database_name ssl_mode w =
      if database_name == ""
      then err (message "database name is required")
      else if service_ns == ""
      then err (message "service namespace is required")
      else complete_creds (get_secret service_ns secret_name w) database_name ssl_mode
