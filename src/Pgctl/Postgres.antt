-- ===== src/Pgctl/Postgres.antt =====
-- What pkg/pgctl asks of the two databases and of the tools `pg_dump` and `psql`. They are no part
-- of the repository: `Databases` holds one operation for each statement that the package sends.
-- A statement that reads leaves the world `W` as it is; one that writes returns a new world, also
-- when it fails.
use db_controller.Prelude.{ℕ, String, Bool, List}
use db_controller.Api.Error.{Result}
use db_controller.Exec.{Exec}

abbrev pub Read : Type 0 → Type 0 → Type 0
Read W A = W → Result A

-- pgctl.go: Config, without its logger
pub record Config : Type 0 where
  pub cloud : String
  pub source_db_admin_dsn : String
  pub source_db_user_dsn : String
  pub target_db_admin_dsn : String
  pub target_db_user_dsn : String
  pub export_file_path : String

pub record Databases (W : Type 0) : Type 0 where
  -- sql.Open and Ping
  pub ping : String → Read W (Unit {0})
  -- the name of the user in a DSN, by url.Parse
  pub user_of : String → Result String
  -- utils.go: the three queries of isAdminUser and isLogical
  pub is_replication_superuser : String → Read W Bool
  pub count_admin_roles : String → Read W ℕ
  pub wal_level_is_logical : String → Read W Bool
  -- CREATE and DROP PUBLICATION, and the query that looks for one
  pub publication_exists : String → String → Read W Bool
  pub create_publication : String → String → Exec W (Unit {0})
  pub drop_publication : String → String → Exec W (Unit {0})
  -- the statements on subscriptions; the second text is the name
  pub subscription_exists : String → String → Read W Bool
  pub create_subscription : String → String → String → String → Exec W (Unit {0})
  pub enable_subscription : String → String → Exec W (Unit {0})
  pub disable_subscription : String → String → Exec W (Unit {0})
  pub drop_subscription : String → String → Exec W (Unit {0})
  -- GRANT and REVOKE of a group role
  pub grant_role : String → String → String → Exec W (Unit {0})
  pub revoke_role : String → String → String → Exec W (Unit {0})
  -- pg_dump to a file below a path, whose name it returns; the edits of the file; psql, of a path
  -- and a file; DROP SCHEMA
  pub dump_schema : String → String → Exec W String
  pub modify_dump : String → Exec W (Unit {0})
  pub restore : String → String → String → Exec W (Unit {0})
  pub drop_schemas : String → Exec W (Unit {0})
  -- temporary replication slots of a publication, and relations of a subscription not yet ready
  pub slot_active : String → String → Read W Bool
  pub unready_relations : String → String → Read W ℕ
  -- sequences and their values, rounded as the query says; SETVAL
  pub sequences : String → Read W (List String)
  pub rounded_value : String → String → Read W ℕ
  pub set_value : String → String → ℕ → Exec W (Unit {0})
  -- REVOKE insert, delete, update ON ALL TABLES
  pub revoke_writes : String → String → Exec W (Unit {0})
  -- row counts: all tables of the source, one table of the target
  pub table_counts : String → Read W (List (String × ℕ))
  pub table_count : String → String → Read W ℕ
