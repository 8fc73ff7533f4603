-- ===== src/Api/Connection.antt =====
-- api/v1/databaseclaim_types.go: connection information, and where a claim's data comes from.
use db_controller.Prelude.{String, Option, ◌==◌, if◌then◌else◌}
use db_controller.Api.Error.{Result, ok, err, message}

pub record SecretRef : Type 0 where
  pub namespace : String
  pub name : String

pub record Database : Type 0 where
  pub dsn : String
  pub secret_ref : Option SecretRef

pub record SourceDataFrom : Type 0 where
  pub source_type : String
  pub database : Option Database

pub record ConnectionInfo : Type 0 where
  pub host : String
  pub port : String
  pub database_name : String
  pub username : String
  pub password : String
  pub ssl_mode : String

-- `&DatabaseClaimConnectionInfo{}`
abbrev pub no_connection : ConnectionInfo
no_connection = record {
  host = "";
  port = "";
  database_name = "";
  username = "";
  password = "";
  ssl_mode = "";
}

-- DatabaseClaimConnectionInfo.Validate
unfoldable pub validate : ConnectionInfo → Result (Unit {0})
validate c =
    if c.host == ""
    then err (message "dsn has an empty host")
    else if c.username == ""
    then err (message "dsn has an empty user")
    else if c.password == ""
    then err (message "dsn has an empty password")
    else if c.database_name == ""
    then err (message "dsn has an empty database name")
    else ok tt
