-- ===== src/Dbproxy/Config.antt =====
-- NewConfig of dbproxy/pgbouncer/config.go. Its template is a constant, whose Parse does not fail.
use db_controller.Prelude.{pos, String, ◌==◌, if◌then◌else◌}
use db_controller.Api.Error.{Result, ok, err, message, ◌>>=◌}
use db_controller.Dbproxy.{Host, PgbouncerConfig}

pub record Params : Type 0 where
  pub local_addr : String
  pub dsn_path : String
  pub out_path : String

module _ {W : Type 0} (host : Host W) where
  abbrev with_address : Params → String × String → PgbouncerConfig
  with_address p (name, port) = record {
    config_path = p.out_path;
    auth_path = host.beside p.out_path "userlist.txt";
    dsn_path = p.dsn_path;
    hash = "";
    local_db_name = "";
    local_host = name;
    local_port = port;
    remote_host = "";
    remote_port = pos 0;
    user_name = "";
    password = "";
    ssl_mode = "";
    role_name = "";
  }

  -- NewConfig
  unfoldable pub new_config : Params → Result PgbouncerConfig
  new_config p =
      if p.dsn_path == ""
      then err (message "dsn path is required")
      else (host.split_host_port p.local_addr >>= λ a. ok (with_address p a))
