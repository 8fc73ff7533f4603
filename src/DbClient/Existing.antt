-- ===== src/DbClient/Existing.antt =====
-- pkg/basefunctions/basefunctions.go: the client of a database that exists.
use db_controller.Prelude.{Option, none, some, ◌==◌, if◌then◌else◌}
use db_controller.Api.Connection.{ConnectionInfo}
use db_controller.Api.Error.{Result, ok, err, message}
use db_controller.ConnectionString.Uri.{uri}
use db_controller.DbClient.Connect.{Client, new_postgres_client}
use db_controller.Exec.{Exec, lift, ◌>>=◌}
use db_controller.Sql.{Sql}

-- ValidateConnectionParameters, whose tests getClientForExistingDB repeats
unfoldable pub validate_connection_parameters : Option ConnectionInfo → Result ConnectionInfo
validate_connection_parameters none = err (message "invalid connection info")
validate_connection_parameters (some c) =
    if c.host == ""
    then err (message "invalid host name")
    else if c.port == ""
    then err (message "cannot get master port")
    else if c.username == ""
    then err (message "invalid credentials (username)")
    else if c.ssl_mode == ""
    then err (message "invalid sslMode")
    else if c.password == ""
    then err (message "invalid credentials (password)")
    else ok c

module _ {W : Type 0} (sql : Sql W) where
  -- GetClientForExistingDB
  unfoldable pub existing_db_client : Option ConnectionInfo → Exec W Client
  unfolding validate_connection_parameters new_postgres_client uri
  existing_db_client conn = do
    c ← lift (validate_connection_parameters conn)
    new_postgres_client sql "" (uri sql.query_escape (some c))
