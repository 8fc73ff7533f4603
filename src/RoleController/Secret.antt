-- ===== src/RoleController/Secret.antt =====
-- copySourceSecret of pkg/roleclaim/roleclaim.go. Labels and owner references of the secret are
-- left out.
use db_controller.Prelude.{String, Bool, ◌&&◌, lookup, is_some, insert, ◌==◌, if◌then◌else◌}
use db_controller.Api.Claim.{dsn_key, dsn_uri_key, replica_dsn_uri_key}
use db_controller.Api.Connection.{ConnectionInfo}
use db_controller.Api.Error.{Result, ok, err, message, is_not_found, ◌>>=◌}
use db_controller.Api.RoleClaim.{DbRoleClaim}
use db_controller.Cluster.{Cluster}
use db_controller.ConnectionString.{postgres_connection_string, postgres_uri, replace_all}
use db_controller.Exec.{Exec, fail, lift, rescue, ◌>>=◌ as ◌>>>=◌}
use db_controller.Secrets.{Data, data_at, entries, put}

abbrev pub has_key : String → Data → Bool
has_key k d = is_some (lookup k (entries d))

-- a new value, where there is one
abbrev pub put_new : String → String → Data → Result Data
put_new k v d = if v == "" then ok d else put k v d

abbrev pub is_complete : Data → Bool
is_complete d =
    has_key "database" d
    && (has_key "hostname" d
        && (has_key "password" d
            && (has_key "port" d && (has_key "sslmode" d && has_key "username" d))))

-- the connection in the data of a source secret
abbrev pub source_connection : Data → ConnectionInfo
source_connection d = record {
  host = data_at "hostname" d;
  port = data_at "port" d;
  database_name = data_at "database" d;
  username = data_at "username" d;
  password = data_at "password" d;
  ssl_mode = data_at "sslmode" d;
}

-- the connection strings, anew
unfoldable pub renew_dsns : (String → String) → Data → Result Data
unfolding postgres_connection_string postgres_uri replace_all lookup insert
renew_dsns query_escape d =
    let c = source_connection d in
    let uri = postgres_uri query_escape c in
    put dsn_key (postgres_connection_string c) d >>= λ d1. put dsn_uri_key uri d1 >>= λ d2.
    if has_key replica_dsn_uri_key d2
    then put replica_dsn_uri_key (replace_all ".cluster-" ".cluster-ro-" 0 uri) d2
    else ok d2

-- the data of a source secret, for a user
unfoldable pub role_data : (String → String) → String → String → Data → Result Data
unfolding renew_dsns lookup insert
role_data query_escape user password d = put_new "username" user d >>= λ d1.
    put_new "password" password d1 >>= λ d2.
    if is_complete d2
    then renew_dsns query_escape d2
    else err (message "source secret data is incomplete")

module _ {W : Type 0} (cluster : Cluster W) where
  -- copySourceSecret
  unfoldable pub copy_source_secret :
      (String → String) → Data → DbRoleClaim → String → String → Exec W (Unit {0})
  unfolding role_data
  copy_source_secret query_escape source claim user password =
      lift (role_data query_escape user password source) >>>= λ d w.
      rescue (cluster.get_secret claim.namespace claim.spec.secret_name w) w
        (λ e.
          if is_not_found e
          then cluster.create_secret claim.namespace claim.spec.secret_name (entries d)
          else fail e)
        (λ _. cluster.update_secret claim.namespace claim.spec.secret_name d)
