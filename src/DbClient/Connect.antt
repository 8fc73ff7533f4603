-- ===== src/DbClient/Connect.antt =====
-- The making of a client, and a connection to another database of its server.
use db_controller.Prelude.{String, ◌<>◌, ◌==◌, if◌then◌else◌}
use db_controller.Api.Error.{wrapped}
use db_controller.Exec.{Exec, pure, fail, lift, ask, attempt, ◌>>=◌, ◌>>◌}
use db_controller.Sql.{Sql}

-- client: `dsn` is dbURL and the DSN of its `DB`, `admin_dsn` that of its `adminDB`
pub record Client : Type 0 where
  pub cloud : String
  pub dsn : String
  pub admin_dsn : String

-- `fmt.Errorf("…: %w", err)` behind a call
abbrev pub wrapping {ℓ} : {W A : Type ℓ} → String → Exec W A → Exec W A
wrapping text m = attempt m (λ e. fail (wrapped text e)) pure

module _ {W : Type 0} (sql : Sql W) where
  open sql use {open_db, ping, with_path, redacted}

  -- newPostgresClient without IAM
  unfoldable pub new_postgres_client : String → String → Exec W Client
  new_postgres_client cloud dsn = do
    lift (open_db dsn)
    admin_dsn ← wrapping "could not parse DSN: " (lift (with_path "/postgres" dsn))
    lift (open_db admin_dsn)
    wrapping "could not connect to admin database: " (ask (ping admin_dsn))
    pure (record { cloud = if cloud == "" then "aws" else cloud; dsn = dsn; admin_dsn = admin_dsn })

  -- client.Ping
  unfoldable pub ping_client : Client → Exec W (Unit {0})
  ping_client pc = wrapping ("ping_failed: " <> redacted pc.dsn <> " ") (ask (ping pc.dsn))

  -- client.getDB: the DSN of the database
  unfoldable pub get_db : Client → String → Exec W String
  get_db pc db_name = do db ← lift (with_path ("/" <> db_name) pc.dsn); lift (open_db db); pure db
