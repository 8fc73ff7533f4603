-- ===== src/Credentials/Source.antt =====
-- pkg/auth: where the credentials of a source database come from, and the DSNs of pkg/kctlutils.
use db_controller.Prelude.{
  String, Bool, true, ◌||◌, none, some, lookup, is_some, before, ◌==◌, if◌then◌else◌,
}
use db_controller.Api.Error.{Err, Result, ok, err, panic, message, wrapped, ◌>>=◌}
use db_controller.Api.Claim.{DatabaseClaim, dsn_uri_key}
use db_controller.Api.Connection.{ConnectionInfo, Database, SourceDataFrom}
use db_controller.Cluster.{Cluster}
use db_controller.ConnectionString.Uri.{parse_uri, uri}
use db_controller.Credentials.{get_master_creds}
use db_controller.RequestInfo.{deref}
use db_controller.Secrets.{Data, data_at, entries}
use db_controller.Sql.{Sql, Url}

abbrev pub or_else {ℓ} : {A : Type ℓ} → Result A → (Err → Result A) → Result A
or_else (ok a) f = ok a
or_else (err e) f = f e
or_else panic f = panic

-- ErrInvalidCredentialsPasswordMissing
abbrev pub password_missing : Err
password_missing = message "invalid_credentials_password_missing"

-- the connection in the data of a claim's secret
abbrev secret_connection : Data → ConnectionInfo
secret_connection d = record {
  host = data_at "hostname" d;
  port = data_at "port" d;
  username = data_at "username" d;
  password = data_at "password" d;
  ssl_mode = data_at "sslmode" d;
  database_name = data_at "database" d;
}

abbrev check_connection : ConnectionInfo → Result ConnectionInfo
check_connection c =
    if c.database_name == "" || c.host == "" || c.port == "" || c.username == "" || c.password == ""
    then err (message "generated secret is incomplete")
    else ok c

-- Database and SecretRef of a source, which are pointers
abbrev pub database_of : SourceDataFrom → Result Database
database_of s = deref s.database

module _ {W : Type 0} (cluster : Cluster W) (sql : Sql W) where
  open cluster use {get_secret}
  open sql use {parse_url, query_escape}

  -- GetConnSecret
  unfoldable pub get_conn_secret : DatabaseClaim → W → Result ConnectionInfo
  unfolding lookup
  get_conn_secret claim w = do
    d ← get_secret claim.namespace claim.spec.secret_name w
    check_connection (secret_connection d)

  -- GetConnDSN
  unfoldable pub get_conn_dsn : DatabaseClaim → W → Result String
  unfolding get_conn_secret uri
  get_conn_dsn claim w = do c ← get_conn_secret claim w; ok (uri query_escape (some c))

  -- GetMasterDSN
  unfoldable pub get_master_dsn : String → String → String → String → W → Result String
  unfolding get_master_creds uri
  get_master_dsn service_ns secret_name database_name ssl_mode w = do
    c ← get_master_creds cluster service_ns secret_name database_name ssl_mode w
    ok (uri query_escape (some c))

  -- the last part of parseExistingDSN: the user and the password where the DSN has none
  unfoldable pub fill_password : DatabaseClaim → Data → ConnectionInfo → Result ConnectionInfo
  unfolding lookup
  fill_password claim d c =
      let named = if c.username == "" then record c { username = claim.spec.username } else c in
      if c.password == ""
      then (elim (lookup "password" (entries d)) [
        | none ↦ err password_missing
        | some p ↦ ok (record named { password = p })
      ])
      else ok named

  -- the part of parseExistingDSN that reads the DSN of the claim
  unfoldable pub claim_connection : Data → DatabaseClaim → Result ConnectionInfo
  unfolding fill_password parse_uri
  claim_connection d claim = do
    source ← deref claim.spec.source_data_from
    database ← database_of source
    c ← or_else (parse_uri sql database.dsn) (λ e. err (wrapped "unable_read_dsn: " e))
    fill_password claim d c

  -- parseExistingDSN
  unfoldable pub parse_existing_dsn : Data → DatabaseClaim → Result ConnectionInfo
  unfolding claim_connection parse_uri lookup
  parse_existing_dsn d claim = elim (lookup dsn_uri_key (entries d)) [
    | none ↦ claim_connection d claim
    | some dsn ↦ or_else (parse_uri sql dsn) (λ _. claim_connection d claim)
  ]

  -- getSourceDataFromSecretRef
  unfoldable pub get_source_data_from_secret_ref :
      Database → DatabaseClaim → W → Result ConnectionInfo
  unfolding parse_existing_dsn
  get_source_data_from_secret_ref database claim w = do
    secret ← deref database.secret_ref
    let namespace = if secret.namespace == "" then claim.namespace else secret.namespace
    d ← get_secret namespace secret.name w
    parse_existing_dsn d claim

  -- whether url.Parse finds a password in a DSN, or fails on it
  abbrev has_password_or_invalid : Result Url → Bool
  has_password_or_invalid (ok u) = is_some u.password
  has_password_or_invalid _ = true

  -- fetchAdminFromSourceDataFrom, which is GetSourceDataFromDSN
  unfoldable pub fetch_admin_from_source_data_from : DatabaseClaim → W → Result String
  unfolding get_source_data_from_secret_ref uri
  fetch_admin_from_source_data_from claim w = elim claim.spec.source_data_from [
    | none ↦ ok ""
    | some source ↦ database_of source >>= λ database.
        if has_password_or_invalid (parse_url database.dsn) || database.dsn == ""
        then (get_source_data_from_secret_ref database claim w >>= λ c.
            ok (uri query_escape (some c)))
        else ok database.dsn
  ]

  -- fetchAdminFromActiveDB
  unfoldable pub fetch_admin_from_active_db : DatabaseClaim → String → W → Result String
  unfolding get_master_creds uri
  fetch_admin_from_active_db claim service_ns w = elim claim.status.active_db.connection_info [
    | none ↦ err (message "unable to fetch source admin")
    | some c ↦
        if uri query_escape (some c) == ""
        then err (message "unable to fetch source admin")
        else (get_master_creds cluster service_ns (before b'.' c.host) claim.spec.database_name
              c.ssl_mode w
            >>= λ m. ok (uri query_escape (some m)))
  ]

  -- PopulateCreds: the DSN of the source
  unfoldable pub populate_creds : DatabaseClaim → String → W → Result String
  unfolding fetch_admin_from_source_data_from fetch_admin_from_active_db
  populate_creds claim service_ns w = get_secret claim.namespace claim.spec.secret_name w >>= λ _.
      or_else (fetch_admin_from_source_data_from claim w)
        (λ _. fetch_admin_from_active_db claim service_ns w)
