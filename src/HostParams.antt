-- ===== src/HostParams.antt =====
-- pkg/hostparams/hostparams.go: the host that a claim asks for, with the program's defaults.
mod Text
pub mod Laws
unfoldable pub use Text.{atoi, to_lower}
use db_controller.Prelude.{
  ℕ, ℤ, pos, ◌-◌, ltz, lez, eqz, String, Bool, true, false, not, ◌&&◌, ◌||◌, Option, none, some,
  ◌==◌, ◌<>◌, before, after, has_char, if◌then◌else◌,
}
use db_controller.Api.Error.{Result, ok, err, message, ◌>>=◌}
use db_controller.Api.Claim.{postgres, aurora_postgres, DatabaseClaim}
use db_controller.Config.{Viper}

pub record HostParams : Type 0 where
  pub engine : String  -- Type
  pub shape : String
  pub min_storage_gb : ℤ
  pub max_storage_gb : ℤ
  pub db_version : String
  pub master_username : String
  pub instance_class : String
  pub storage_type : String
  pub skip_final_snapshot_before_deletion : Bool
  pub publicly_accessible : Bool
  pub enable_iam_database_authentication : Bool
  pub deletion_policy : String
  pub port : ℤ
  pub is_default_engine : Bool
  pub is_default_shape : Bool
  pub is_default_instance_class : Bool
  pub is_default_storage : Bool
  pub is_default_version : Bool

abbrev pub default_shape : String
default_shape = "db.t4g.medium"

abbrev pub default_major_version : String
default_major_version = "15"

abbrev pub max_storage_reduced : String
max_storage_reduced =
    "reducing .spec.maxStorageGB value is not allowed (Also not spacifying maxStorageGB if specified earlier is not allowed.)"

abbrev pub max_storage_lesser : String
max_storage_lesser = ".spec.maxStorageGB should always be greater than spec.minStorageGB"

-- shapeParts[INSTANCE_CLASS_INDEX]
unfoldable pub get_instance_class : String → String
get_instance_class shape = before b'!' shape

-- shapeParts[STORAGE_TYPE_INDEX]: the part between the first two delimiters
abbrev pub storage_part : String → String
storage_part shape = before b'!' (after b'!' shape)

unfoldable pub get_storage_type : Viper → String → String → Result String
unfolding to_lower
get_storage_type config engine shape =
    let part = to_lower (storage_part shape) in
    if not (engine == aurora_postgres)
    then ok (config.get_string "storageType")
    else if not (has_char b'!' shape)
    then ok "aurora"
    else if part == "io1"
    then ok "aurora-iopt1"
    else if part == "io-optimized"
    then ok "aurora-iopt1"
    else if part == "standard"
    then ok "aurora"
    else if part == "aurora"
    then ok "aurora"
    else if part == ""
    then ok "aurora"
    else err (message "invalid shape")

unfoldable pub has_shape_changed : HostParams → String → Bool
has_shape_changed p active = if p.is_default_shape then false else not (active == p.shape)

unfoldable pub has_instance_class_changed : HostParams → String → Bool
has_instance_class_changed p active =
    if p.is_default_instance_class then false else not (active == p.instance_class)

unfoldable pub has_storage_changed : HostParams → ℤ → Bool
has_storage_changed p active =
    if p.engine == aurora_postgres
    then false
    else if p.is_default_storage
    then false
    else not (eqz active p.min_storage_gb)

unfoldable pub has_engine_changed : HostParams → String → Bool
has_engine_changed p active = if p.is_default_engine then false else not (active == p.engine)

-- strings.Split(version, ".")[0]
abbrev pub major : String → String
major version = before b'.' version

unfoldable pub has_version_changed : HostParams → String → Bool
has_version_changed p active =
    if p.is_default_version then false else not (major active == major p.db_version)

unfoldable pub is_upgrade_requested : HostParams → HostParams → Bool
unfolding has_engine_changed has_instance_class_changed has_version_changed
is_upgrade_requested p active =
    has_engine_changed p active.engine
    || has_instance_class_changed p active.instance_class
    || has_version_changed p active.db_version

-- The rules on the storage of a postgres host.
unfoldable pub check_storage : DatabaseClaim → HostParams → Result HostParams
check_storage claim p =
    let active = claim.status.active_db.max_storage_gb in
    if not (p.engine == postgres)
    then ok p
    else if eqz p.max_storage_gb (pos 0)
    then (if not (eqz active (pos 0)) then err (message max_storage_reduced) else ok p)
    else if ltz p.max_storage_gb active
    then err (message max_storage_reduced)
    else if lez p.max_storage_gb p.min_storage_gb
    then err (message max_storage_lesser)
    else ok p

abbrev deletion_policy_of : Viper → String → String
deletion_policy_of config policy =
    let titled = config.title policy in
    if titled == ""
    then (if config.get_string "defaultDeletionPolicy" == "delete" then "Delete" else "Orphan")
    else titled

-- The fields of a claim with their defaults, before the storage type is known.
unfoldable pub fill : Viper → DatabaseClaim → ℤ → HostParams
unfolding get_instance_class
fill config claim port =
    let spec = claim.spec in
    let active = claim.status.active_db in
    let shape = if spec.shape == "" then default_shape else spec.shape in
    record {
      engine = if spec.db_type == "" then postgres else spec.db_type;
      shape = shape;
      min_storage_gb =
          if eqz spec.min_storage_gb (pos 0)
          then config.get_int "defaultMinStorageGB"
          else spec.min_storage_gb;
      max_storage_gb = spec.max_storage_gb;
      db_version =
          if spec.db_version == ""
          then (if active.db_version == "" then default_major_version else active.db_version)
          else spec.db_version;
      master_username = config.get_string "defaultMasterUsername";
      instance_class = get_instance_class shape;
      storage_type = "";
      skip_final_snapshot_before_deletion =
          config.get_bool "defaultSkipFinalSnapshotBeforeDeletion";
      publicly_accessible = config.get_bool "defaultPubliclyAccessible";
      enable_iam_database_authentication = false;
      deletion_policy = deletion_policy_of config spec.deletion_policy;
      port = port;
      is_default_engine = spec.db_type == "";
      is_default_shape = spec.shape == "";
      is_default_instance_class = spec.shape == "";
      is_default_storage = eqz spec.min_storage_gb (pos 0);
      is_default_version = spec.db_version == "" && active.db_version == "";
    }

abbrev or_invalid_port : Option ℤ → Result ℤ
or_invalid_port none = err (message "invalid master port")
or_invalid_port (some port) = ok port

-- New
unfoldable pub new : Viper → DatabaseClaim → Result HostParams
unfolding fill get_storage_type check_storage atoi
new config claim = do
  port ← or_invalid_port (atoi (config.get_string "defaultMasterPort"))
  let p = fill config claim port
  storage ← get_storage_type config p.engine p.shape
  check_storage claim (record p { storage_type = storage })

-- GetActiveHostParams; the fields that it does not set are Go's zero values
unfoldable pub get_active_host_params : DatabaseClaim → HostParams
unfolding get_instance_class
get_active_host_params claim =
    let active = claim.status.active_db in
    record {
      engine = active.db_type;
      shape = active.shape;
      min_storage_gb = active.min_storage_gb;
      max_storage_gb = pos 0;
      db_version = active.db_version;
      master_username = "";
      instance_class = get_instance_class active.shape;
      storage_type = "";
      skip_final_snapshot_before_deletion = false;
      publicly_accessible = false;
      enable_iam_database_authentication = false;
      deletion_policy = "";
      port = pos 0;
      is_default_engine = false;
      is_default_shape = false;
      is_default_instance_class = false;
      is_default_storage = false;
      is_default_version = false;
    }
