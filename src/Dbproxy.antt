-- ===== src/Dbproxy.antt =====
-- dbproxy, the pgbouncer that runs beside a pod: dbproxy/pgbouncer/config.go and dbproxy/dbproxy.go.
-- `Host` holds the calls of os, net/url, crypto/md5 and fmt, of the watcher of files, and of the
-- scripts.
pub mod Config
pub mod Write
pub mod Serve
pub mod Written
pub mod Duplicate
pub mod Ports
pub mod Ends
use db_controller.Prelude.{ℕ, ℤ, String, Bool}
use db_controller.Api.Error.{Result}
use db_controller.Exec.{Exec}
use db_controller.Sql.{Url}

-- PGBouncerConfig, but for its template
pub record PgbouncerConfig : Type 0 where
  pub config_path : String
  pub auth_path : String
  pub dsn_path : String
  pub hash : String
  pub local_db_name : String
  pub local_host : String
  pub local_port : String
  pub remote_host : String
  pub remote_port : ℤ
  pub user_name : String
  pub password : String
  pub ssl_mode : String
  pub role_name : String

pub record Dsn : Type 0 where
  pub scheme : String
  pub url : Url

pub record Host (W : Type 0) : Type 0 where
  pub read_file : String → W → Result String
  -- os.OpenFile with O_TRUNC and O_CREATE: the file is there and empty
  pub open_truncated : String → Exec W (Unit {0})
  -- what is written to an open file comes behind what was written before
  pub append : String → String → Exec W (Unit {0})
  pub parse_url : String → Result Dsn
  -- net.SplitHostPort, and filepath.Join of filepath.Dir and a name
  pub split_host_port : String → Result (String × String)
  pub beside : String → String → String
  -- md5.Sum
  pub md5 : String → String
  -- strconv.Quote
  pub quote : String → String
  -- fmt's %d
  pub print_int : ℤ → String
  -- the watcher; the test is errors.Is(err, fsnotify.ErrNonExistentWatch), of a removal that fails
  pub new_watcher : Exec W (Unit {0})
  pub add_watch : String → Exec W (Unit {0})
  pub remove_watch : String → Exec W (Unit {0})
  pub says_unwatched : String → W → Bool
  -- waitForFiles, which only waits
  pub wait_for_file : String → Exec W (Unit {0})
  pub run_script : String → Exec W (Unit {0})

-- what Write works on
pub record Bouncer (W : Type 0) : Type 0 where
  pub config : PgbouncerConfig
  pub world : W
