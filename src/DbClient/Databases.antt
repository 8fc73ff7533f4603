-- ===== src/DbClient/Databases.antt =====
-- Databases, extensions, schemas and system functions.
use db_controller.Prelude.{
  String, Bool, true, false, List, [], ◌∷◌, Map, ◌<>◌, ◌==◌, has_char, before, after, contains,
  if◌then◌else◌,
}
use db_controller.Api.Error.{Err, message}
use db_controller.Api.Condition.{error_text}
use db_controller.Exec.{Exec, pure, fail, ask, attempt, ◌>>=◌, ◌>>◌}
use db_controller.Sql.{
  Sql, create_database, create_extension, create_schema, create_pg_cron, create_pg_partman,
  create_ib_schema, create_function, database_exists, extension_exists, schema_exists,
}
use db_controller.DbClient.Connect.{Client, wrapping, get_db}

abbrev pub ib_schema : String
ib_schema = "ib"

abbrev pub default_extensions : List String
default_extensions =
    "citext" ∷ "uuid-ossp" ∷ "pgcrypto" ∷ "hstore" ∷ "pg_stat_statements" ∷ "plpgsql" ∷ []

abbrev pub says_missing : Err → Bool
says_missing e = contains (error_text e) "does not exist"

-- the schema and the name of a system function
abbrev pub function_schema : String → String
function_schema f = if has_char b'_' f then before b'_' f else "public"

abbrev pub function_name : String → String
function_name f = if has_char b'_' f then after b'_' f else f

module _ {W : Type 0} (sql : Sql W) (pc : Client) where
  open sql use {ping, exec, test, call_function}

  -- createDatabase
  unfoldable pub make_database : String → Exec W Bool
  make_database db_name = do
    exec pc.admin_dsn (create_database db_name)
    ask (ping pc.dsn)
    pure true

  -- CreateDatabase: whether it was created
  unfoldable pub create_database_if_missing : String → Exec W Bool
  unfolding make_database
  create_database_if_missing db_name =
      attempt (ask (test pc.admin_dsn (database_exists db_name)))
        (λ e. if says_missing e then make_database db_name else fail e)
        (λ exists. if exists then pure false else make_database db_name)

  -- CheckExtension
  unfoldable pub check_extension : String → Exec W Bool
  check_extension name = ask (test pc.dsn (extension_exists name))

  create_extensions : String → List String → Exec W (Unit {0})
  create_extensions db [] = pure tt
  create_extensions db (s ∷ rest) = do
    attempt (exec db (create_extension s))
        (λ e. fail (message ("could not create extension " <> s <> ": " <> error_text e))) pure
    create_extensions db rest

  -- CreateDefaultExtensions
  unfoldable pub create_default_extensions : String → Exec W (Unit {0})
  unfolding get_db create_extensions
  create_default_extensions db_name =
      get_db sql pc db_name >>= λ db. create_extensions db default_extensions

  -- CreatePgCronExtension
  unfoldable pub create_pg_cron_extension : String → String → Exec W (Unit {0})
  unfolding get_db
  create_pg_cron_extension db_name role = do
    db ← get_db sql pc db_name
    wrapping "failed to create extension pg_cron and grant usage on schema cron to public: "
        (exec db (create_pg_cron role))

  -- CreatePgPartmanExtension
  unfoldable pub create_pg_partman_extension : String → String → Exec W (Unit {0})
  unfolding get_db
  create_pg_partman_extension db_name role = do
    db ← get_db sql pc db_name
    exec db (create_pg_partman role)

  -- CreateSpecialExtensions; Go visits the two in either order, here in that of their list
  unfoldable pub create_special_extensions : String → String → Exec W (Unit {0})
  unfolding get_db create_pg_cron_extension create_pg_partman_extension
  create_special_extensions db_name role = do
    get_db sql pc db_name
    create_pg_partman_extension db_name role
    create_pg_cron_extension db_name role

  -- SchemaExists
  unfoldable pub find_schema : String → Exec W Bool
  find_schema name =
      wrapping ("schema_exists " <> name <> ": ") (ask (test pc.dsn (schema_exists name)))

  -- CreateSchema
  unfoldable pub make_schema : String → Exec W Bool
  make_schema name = do exec pc.dsn (create_schema name); pure true

  -- What a query leaves in `currVal`: a function that does not exist leaves what was there.
  abbrev pub read_value : String → String → String → Exec W String
  read_value db f current =
      attempt (ask (call_function db (function_schema f) (function_name f)))
        (λ e. if says_missing e then pure current else fail e) pure

  -- the loop of ManageSystemFunctions, over the functions in some order; `currVal` outlives a round
  unfoldable pub manage_functions : String → String → Map String → Exec W (Unit {0})
  manage_functions db current [] = pure tt
  manage_functions db current ((f, v) ∷ rest) = read_value db f current >>= λ value.
      (if value == v
        then pure tt
        else exec db (create_function (function_schema f) (function_name f) v))
      >> manage_functions db value rest

  -- ManageSystemFunctions
  unfoldable pub manage_system_functions : String → Map String → Exec W (Unit {0})
  unfolding get_db find_schema manage_functions
  manage_system_functions db_name functions = do
    db ← get_db sql pc db_name
    exists ← find_schema ib_schema
    (if exists then pure tt else exec db create_ib_schema)
    manage_functions db "" functions
