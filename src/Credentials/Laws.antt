-- ===== src/Credentials/Laws.antt =====
-- What the credentials of pkg/databaseclaim/creds.go and pkg/kctlutils/kctl.go are good for.
use db_controller.Prelude.{String, false, ◌≡◌, refl, arith, ◌==◌}
use db_controller.Api.Error.{Err, Result, ok, err, panic, wrapped}
use db_controller.Api.Connection.{ConnectionInfo, validate}
use db_controller.Cluster.{Cluster}
use db_controller.Credentials.{
  repair_creds, validate_and_update_creds, validate_and_update_creds_dsn, get_master_creds,
  complete_creds,
}
use db_controller.Secrets.{Data}
use db_controller.Sql.{Sql}
use db_controller.DbClient.Connect.{Client, new_postgres_client, ping_client}

module _ {W : Type 0} (sql : Sql W) where
  open sql use {open_db, ping, with_path}

  repair_creds-pings :
      (admin : Client) (dsn : String) (w : W)
      → (repair_creds sql admin dsn w).0 ≡ ok tt
      → ping dsn (repair_creds sql admin dsn w).1 ≡ ok tt
  unfolding repair_creds
  repair_creds-pings admin dsn w h = ground arith

  validate-pings :
      (admin : Client) (dsn : String) (w : W)
      → (dsn == "") ≡ false
      → (validate_and_update_creds sql admin dsn w).0 ≡ ok tt
      → ping dsn (validate_and_update_creds sql admin dsn w).1 ≡ ok tt
  unfolding validate_and_update_creds
  validate-pings admin dsn w n h = grind (arith, repair_creds-pings)

  -- When the check of a user's DSN that is not empty succeeds, the user can connect with it, in the
  -- world that the check leaves: with its password as it was, or set anew.
  pub validate_and_update_creds_dsn-pings :
      (admin_dsn dsn : String) (w : W)
      → (dsn == "") ≡ false
      → (validate_and_update_creds_dsn sql admin_dsn dsn w).0 ≡ ok tt
      → ping dsn (validate_and_update_creds_dsn sql admin_dsn dsn w).1 ≡ ok tt
  unfolding validate_and_update_creds_dsn
  validate_and_update_creds_dsn-pings admin_dsn dsn w n h = grind (arith, validate-pings)

  -- A user who cannot log in to the database `/postgres` of the same server, as one whose password
  -- is wrong, fails the check for an administrator who can connect, and no password is set: the
  -- client is refused before the repair is reached.
  pub unrepaired_login :
      (admin : Client) (dsn login : String) (e : Err) (w : W)
      → (dsn == "") ≡ false
      → ping admin.dsn w ≡ ok tt
      → open_db dsn ≡ ok tt
      → with_path "/postgres" dsn ≡ ok login
      → open_db login ≡ ok tt
      → ping login w ≡ err e
      → validate_and_update_creds sql admin dsn w ≡ (
        err (
            wrapped "unable_create_dbclient: " (wrapped "could not connect to admin database: " e)),
        w,
      )
  unfolding validate_and_update_creds ping_client new_postgres_client
  unrepaired_login admin dsn login e w n a o p q r = rw n (rw a (rw o (rw p (rw q (rw r refl)))))

module _ {W : Type 0} (cluster : Cluster W) where
  complete_creds-validate :
      (r : Result Data) (database_name ssl_mode : String) (c : ConnectionInfo)
      → (database_name == "") ≡ false
      → complete_creds cluster r database_name ssl_mode ≡ ok c
      → validate c ≡ ok tt
  unfolding validate
  complete_creds-validate (ok d) database_name ssl_mode c n h = ground arith
  complete_creds-validate (err e) database_name ssl_mode c n h = cc
  complete_creds-validate panic database_name ssl_mode c n h = cc

  -- The credentials that are read from a secret pass the check that the migration makes of a
  -- connection.
  get_master_creds-validate :
      (service_ns secret_name database_name ssl_mode : String) (w : W) (c : ConnectionInfo)
      → get_master_creds cluster service_ns secret_name database_name ssl_mode w ≡ ok c
      → validate c ≡ ok tt
  unfolding get_master_creds
  get_master_creds-validate service_ns secret_name database_name ssl_mode w c h =
      grind (arith, complete_creds-validate)
