-- ===== src/Secrets.antt =====
-- pkg/databaseclaim/secrets.go: the secret of a claim, and the temporary secret of a migration.
pub mod RoundTrip
pub mod Stored
use db_controller.Prelude.{
  String, Bool, true, false, not, ◌&&◌, ◌||◌, Option, none, some, [], ◌∷◌, Map, lookup, insert,
  get_or, is_some, ltb, ◌==◌, ◌<>◌, if◌then◌else◌,
}
use db_controller.Api.Error.{Err, Result, ok, err, panic, message, is_not_found, ◌>>=◌}
use db_controller.Api.Connection.{ConnectionInfo}
use db_controller.Api.Claim.{
  DatabaseClaim, postgres, aurora_postgres, dsn_key, dsn_uri_key, replica_dsn_uri_key,
}
use db_controller.Cluster.{Cluster}
use db_controller.ConnectionString.{postgres_connection_string, postgres_uri, replace_all}
use db_controller.Exec.{Exec, pure, fail, crash, lift, rescue, ◌>>=◌ as ◌>>>=◌, continue}
use db_controller.Pgctl.State.{get_state_enum, number, reroute_target_secret}

abbrev pub temp_target_password : String
temp_target_password = "targetPassword"

abbrev pub temp_source_dsn : String
temp_source_dsn = "sourceDsn"

abbrev pub temp_target_dsn : String
temp_target_dsn = "targetDsn"

abbrev pub cached_master_password : String
cached_master_password = "cachedMasterPasswdForExistingDB"

-- A secret's data: none is Go's nil map, which is read as empty and cannot be written to.
abbrev pub Data : Type 0
Data = Option (Map String)

abbrev pub entries : Data → Map String
entries d = get_or d []

abbrev pub data_at : String → Data → String
data_at k d = get_or (lookup k (entries d)) ""

abbrev pub put : String → String → Data → Result Data
put k v none = panic
put k v (some m) = ok (some (insert k v m))

-- What createSecret and updateSecret write besides the DSN's own names.
abbrev pub put_connection : String → String → String → ConnectionInfo → Data → Result Data
put_connection dsn uri replica_uri c d = do
  d ← put dsn_key dsn d
  d ← put dsn_uri_key uri d
  d ← put replica_dsn_uri_key replica_uri d
  d ← put "hostname" c.host d
  d ← put "port" c.port d
  d ← put "database" c.database_name d
  d ← put "username" c.username d
  d ← put "password" c.password d
  put "sslmode" c.ssl_mode d

unfoldable pub secret_data :
    DatabaseClaim → String → String → String → ConnectionInfo → Data → Result Data
unfolding insert
secret_data claim dsn uri replica_uri c d = do
  d ← put_connection dsn uri replica_uri c d
  (if not (claim.spec.dsn_name == "") && not (claim.spec.dsn_name == dsn_key)
      then put claim.spec.dsn_name dsn d >>= put ("uri_" <> claim.spec.dsn_name) uri
      else ok d)

abbrev pub temp_secret_name : DatabaseClaim → String
temp_secret_name claim = "temp-" <> claim.spec.secret_name

abbrev pub namespace_or_default : DatabaseClaim → String
namespace_or_default claim = if claim.namespace == "" then "default" else claim.namespace

-- the data of a new temporary secret
unfoldable pub new_temp_data : Map String
new_temp_data =
    (temp_target_password, "")
    ∷ (temp_source_dsn, "")
    ∷ (temp_target_dsn, "")
    ∷ (cached_master_password, "")
    ∷ []

abbrev read_at : String → Result Data → Result String
read_at key (ok d) = ok (data_at key d)
read_at key (err e) = err e
read_at key panic = panic

abbrev pub use_existing_source : DatabaseClaim → Bool
use_existing_source claim = get_or claim.spec.use_existing_source false

abbrev pub is_known_type : String → Bool
is_known_type db_type = db_type == postgres || db_type == aurora_postgres

abbrev pub secret_exists : DatabaseClaim → Err
secret_exists claim = message (
    "secret " <> claim.spec.secret_name <> " already exists in namespace " <> claim.namespace
    <> ", but no active database connection info is available")

module _ {W : Type 0} (cluster : Cluster W) where
  open cluster use {get_secret, create_secret, update_secret, delete_secret}

  -- createSecret
  unfoldable pub create_claim_secret :
      DatabaseClaim → String → String → String → ConnectionInfo → Exec W (Unit {0})
  unfolding secret_data
  create_claim_secret claim dsn uri replica_uri c w =
      continue (secret_data claim dsn uri replica_uri c (some [])) w
        (λ d. create_secret claim.namespace claim.spec.secret_name (entries d))

  -- updateSecret
  unfoldable pub update_claim_secret :
      DatabaseClaim → String → String → String → ConnectionInfo → Data → Exec W (Unit {0})
  unfolding secret_data
  update_claim_secret claim dsn uri replica_uri c old w =
      continue (secret_data claim dsn uri replica_uri c old) w
        (update_secret claim.namespace claim.spec.secret_name)

  -- the part behind the `Get` of createOrUpdateSecret. After an error other than NotFound the
  -- secret is the empty one that `Get` was to fill.
  unfoldable pub write_secret :
      Result Data → DatabaseClaim → String → String → String → ConnectionInfo → Exec W (Unit {0})
  unfolding create_claim_secret update_claim_secret
  write_secret (ok d) claim dsn uri replica_uri c =
      if not (is_some claim.status.active_db.connection_info) && not (use_existing_source claim)
      then fail (secret_exists claim)
      else update_claim_secret claim dsn uri replica_uri c d
  write_secret (err e) claim dsn uri replica_uri c =
      if is_not_found e
      then create_claim_secret claim dsn uri replica_uri c
      else update_claim_secret claim dsn uri replica_uri c none
  write_secret panic claim dsn uri replica_uri c = crash

  -- createOrUpdateSecret; `query_escape` is url.QueryEscape
  unfoldable pub create_or_update_secret :
      (String → String) → DatabaseClaim → ConnectionInfo → String → Exec W (Unit {0})
  unfolding write_secret postgres_connection_string postgres_uri replace_all
  create_or_update_secret query_escape claim c cloud w =
      let uri = postgres_uri query_escape c in
      if is_known_type claim.spec.db_type
      then write_secret (get_secret claim.namespace claim.spec.secret_name w) claim
          (postgres_connection_string c) uri
          (if cloud == "aws" then replace_all ".cluster-" ".cluster-ro-" 0 uri else "") c w
      else (err (message "unknown DB type"), w)

  -- getTempSecret: the data of the temporary secret, which is created where it is missing
  unfoldable pub get_temp_secret : DatabaseClaim → Exec W Data
  unfolding new_temp_data
  get_temp_secret claim w =
      rescue (get_secret claim.namespace (temp_secret_name claim) w) w
        (λ e v.
          if is_not_found e
          then continue (create_secret claim.namespace (temp_secret_name claim) new_temp_data v).0
              (create_secret claim.namespace (temp_secret_name claim) new_temp_data v).1
              (λ _. pure (some new_temp_data))
          else (err e, v))
        pure

  abbrev pub set_in_temp_secret : String → String → DatabaseClaim → Exec W (Unit {0})
  set_in_temp_secret key value claim = get_temp_secret claim >>>= λ d.
      lift (put key value d) >>>= update_secret claim.namespace (temp_secret_name claim)

  unfoldable pub set_source_dsn_in_temp_secret : String → DatabaseClaim → Exec W (Unit {0})
  unfolding get_temp_secret insert
  set_source_dsn_in_temp_secret = set_in_temp_secret temp_source_dsn

  unfoldable pub set_target_password_in_temp_secret : String → DatabaseClaim → Exec W (Unit {0})
  unfolding get_temp_secret insert
  set_target_password_in_temp_secret = set_in_temp_secret temp_target_password

  unfoldable pub set_master_password_in_temp_secret : String → DatabaseClaim → Exec W (Unit {0})
  unfolding get_temp_secret insert
  set_master_password_in_temp_secret = set_in_temp_secret cached_master_password

  abbrev pub get_from_temp_secret : String → DatabaseClaim → W → Result String
  get_from_temp_secret key claim w =
      read_at key (get_secret (namespace_or_default claim) (temp_secret_name claim) w)

  unfoldable pub get_source_dsn_from_temp_secret : DatabaseClaim → W → Result String
  unfolding lookup
  get_source_dsn_from_temp_secret = get_from_temp_secret temp_source_dsn

  unfoldable pub get_target_password_from_temp_secret : DatabaseClaim → W → Result String
  unfolding lookup
  get_target_password_from_temp_secret = get_from_temp_secret temp_target_password

  unfoldable pub get_master_password_from_temp_secret : DatabaseClaim → W → Result String
  unfolding lookup
  get_master_password_from_temp_secret = get_from_temp_secret cached_master_password

  -- getSrcAppDsnFromSecret
  unfoldable pub get_src_app_dsn_from_secret : DatabaseClaim → W → Result String
  unfolding get_state_enum get_source_dsn_from_temp_secret lookup number
  get_src_app_dsn_from_secret claim w = do
    state ← get_state_enum claim.status.migration_state
    (if ltb (number reroute_target_secret) (number state)
        then get_source_dsn_from_temp_secret claim w
        else read_at dsn_uri_key (get_secret (namespace_or_default claim) claim.spec.secret_name w))

  -- deleteTempSecret
  unfoldable pub delete_temp_secret : DatabaseClaim → Exec W (Unit {0})
  delete_temp_secret claim w =
      rescue (get_secret (namespace_or_default claim) (temp_secret_name claim) w) w
        (λ e v. if is_not_found e then (ok tt, v) else (err e, v))
        (λ _. delete_secret (namespace_or_default claim) (temp_secret_name claim))

  -- rerouteTargetSecret in databaseclaim.go
  unfoldable pub reroute_target_secret_to :
      (String → String) → String → ConnectionInfo → String → DatabaseClaim → Exec W (Unit {0})
  unfolding set_source_dsn_in_temp_secret create_or_update_secret
  reroute_target_secret_to query_escape source_dsn target cloud claim =
      set_source_dsn_in_temp_secret source_dsn claim >>>= λ _.
      create_or_update_secret query_escape claim target cloud
