-- ===== src/Sql.antt =====
-- PostgreSQL, database/sql and net/url, as pkg/dbclient/client.go calls them. They are no part of
-- the repository: `Sql` holds one operation for each call, over a world `W`. A statement stands for
-- the text that the client sends, with its identifiers and literals quoted.
use db_controller.Prelude.{String, Bool, Option, List}
use db_controller.Api.Error.{Result}
use db_controller.Exec.{Exec}

pub data Statement : Type 0 where
  create_database create_extension create_schema create_role : String → Statement
  -- the extensions with the rights of a role on their schemas
  create_pg_cron create_pg_partman : String → Statement
  create_ib_schema : Statement
  -- a function of a schema, by its name, and the text that it returns
  create_function : String → String → String → Statement
  -- all rights of a role: on a database, on a schema, its tables, its sequences
  grant_database grant_schema grant_tables grant_sequences : String → String → Statement
  -- the rights of the three kinds of role: database, schema, role
  grant_admin grant_regular grant_read_only : String → String → String → Statement
  -- a user works as a role, and is granted it
  assign_role : String → String → Statement
  -- a user with a password, in a role or in none
  create_login : String → String → String → Statement
  create_user alter_password : String → String → Statement
  rename_user : String → String → Statement
  -- a user is dropped: its heir, the database
  drop_user : String → String → String → Statement
  allow_create_role forbid_create_role : String → Statement
  -- a role is given to a user, or taken from it
  grant_role revoke_role : String → String → Statement
  allow_replication forbid_replication : String → Statement

pub data Query : Type 0 where
  database_exists extension_exists schema_exists role_exists : String → Query
  user_exists has_create_role : String → Query

-- url.URL, as far as the program reads it: `ssl_mode` is the query's sslmode
pub record Url : Type 0 where
  pub hostname : String
  pub port : String
  pub username : String
  pub password : Option String
  pub path : String
  pub ssl_mode : String

pub record Sql (W : Type 0) : Type 0 where
  pub open_db : String → Result (Unit {0})
  -- a ping leaves the world as it is, and so do the queries
  pub ping : String → W → Result (Unit {0})
  pub parse_url : String → Result Url
  -- url.Parse with another path, and as a text again; with another password
  pub with_path : String → String → Result String
  -- url.QueryEscape
  pub query_escape : String → String
  -- URL.Redacted, empty where the URL is not parsed
  pub redacted : String → String
  -- a statement, and a query, on the database of a DSN
  pub exec : String → Statement → Exec W (Unit {0})
  pub test : String → Query → W → Result Bool
  -- the roles that a user is a member of
  pub roles_of : String → String → W → Result (List String)
  -- the text that a function of a schema returns
  pub call_function : String → String → String → W → Result String
