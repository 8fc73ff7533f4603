-- ===== src/Aws.antt =====
-- pkg/databaseclaim/awsprovider.go: the hosts of databases on AWS. `Crossplane` holds the calls of
-- the API server for Crossplane's resources, and the packages sort and strconv; the resources are records of the
-- fields that the program sets.
pub mod Ready
pub mod ParamGroups
pub mod Updates
pub mod Instances
pub mod Hosts
pub mod Kept
pub mod Reported
use db_controller.Prelude.{
  ℕ, ℤ, eqz, pos, String, Bool, true, false, not, Option, none, some, List, [], ◌∷◌, map, ◌==◌,
  ◌<>◌, if◌then◌else◌,
}
use db_controller.Api.Claim.{DatabaseClaim, Tag}
use db_controller.Api.Error.{Err, Result, ok, err, message, is_not_found}
use db_controller.Cluster.{Cluster, Context, Handler, call, here}
use db_controller.Config.{Viper, get_default_major_version}
use db_controller.Exec.{Exec, pure, fail, lift, modify, attempt, rescue, ◌>>=◌, ◌>>◌}
use db_controller.HostParams.{HostParams}
use db_controller.Passwords.{generate_master_password}
use db_controller.Reconciler.{Reconciler}
use db_controller.Tags.{AwsTag, configure_backup_policy}

-- xpv1.Condition
pub record ResourceCondition : Type 0 where
  pub type : String
  pub status : String
  pub reason : String
  pub message : String

-- the name, the namespace and the key of a secret
pub record SecretKey : Type 0 where
  pub name : String
  pub namespace : String
  pub key : String

pub record Parameter : Type 0 where
  pub name : String
  pub value : String
  pub apply_method : String

-- DBParameterGroup and DBClusterParameterGroup
pub record ParamGroup : Type 0 where
  pub name : String
  pub region : String
  pub description : String
  pub engine : String
  pub engine_version : String
  pub parameters : List Parameter
  pub provider_config : String
  pub deletion_policy : String

-- DBInstance
pub record Instance : Type 0 where
  pub name : String
  pub ca_certificate_identifier : Option String
  pub region : String
  pub skip_final_snapshot : Bool
  pub security_group : Option String
  pub subnet_group : Option String
  -- by a reference, or by its name
  pub parameter_group_ref : Option String
  pub parameter_group_name : Option String
  pub master_secret : Option SecretKey
  pub restore_from : Option String
  pub engine_version : String
  pub engine : String
  pub multi_az : Option Bool
  pub instance_class : String
  pub allocated_storage : Option ℤ
  pub max_allocated_storage : Option ℤ
  pub tags : List AwsTag
  pub master_username : Option String
  pub publicly_accessible : Bool
  pub enable_iam : Option Bool
  pub enable_performance_insights : Option Bool
  pub cloudwatch_logs_exports : List String
  pub backup_retention_period : Option ℤ
  pub storage_encrypted : Option Bool
  pub storage_type : Option String
  pub port : Option ℤ
  pub preferred_maintenance_window : Option String
  pub cluster_identifier : Option String
  pub connection_secret : Option SecretKey
  pub provider_config : String
  pub deletion_policy : String
  pub conditions : List ResourceCondition
  pub deletion_timestamp : Option ℕ

-- DBCluster
pub record DbCluster : Type 0 where
  pub name : String
  pub region : String
  pub backup_retention_period : Option ℤ
  pub skip_final_snapshot : Bool
  pub security_group : String
  pub subnet_group : String
  pub master_secret : SecretKey
  pub parameter_group : String
  pub restore_from : Option String
  pub engine_version : String
  pub engine : String
  pub tags : List AwsTag
  pub master_username : String
  pub enable_iam : Bool
  pub storage_encrypted : Bool
  pub storage_type : Option String
  pub port : ℤ
  pub cloudwatch_logs_exports : List String
  pub preferred_maintenance_window : Option String
  pub connection_secret : SecretKey
  pub provider_config : String
  pub deletion_policy : String
  pub conditions : List ResourceCondition
  pub deletion_timestamp : Option ℕ

-- A patch is made from the object before its change and the object behind it, and is empty where
-- both are the same.
pub record Crossplane (W : Type 0) : Type 0 where
  pub get_param_group : String → W → Result ParamGroup
  pub create_param_group : ParamGroup → Exec W (Unit {0})
  pub get_cluster_param_group : String → W → Result ParamGroup
  pub create_cluster_param_group : ParamGroup → Exec W (Unit {0})
  pub get_instance : String → W → Result Instance
  pub create_instance : Instance → Exec W (Unit {0})
  pub is_same_instance : Instance → Instance → Result Bool
  pub patch_instance : Instance → Instance → Exec W (Unit {0})
  pub get_db_cluster : String → W → Result DbCluster
  pub create_db_cluster : DbCluster → Exec W (Unit {0})
  pub is_same_db_cluster : DbCluster → DbCluster → Result Bool
  pub patch_db_cluster : DbCluster → DbCluster → Exec W (Unit {0})
  -- strconv.Quote
  pub quote : String → String
  -- sort.Sort by the keys
  pub sort_tags : List Tag → List Tag

-- getEngineVersion
unfoldable pub get_engine_version : Viper → HostParams → String
get_engine_version config p =
    if p.is_default_version then get_default_major_version config else p.db_version

-- the elements of DBTags, of tags that are sorted
abbrev pub aws_tags : List Tag → List AwsTag
aws_tags = map (λ t. record { key = some t.key; value = some t.value })

-- a pointer to a number that is not zero
abbrev pub nonzero : ℤ → Option ℤ
nonzero n = if eqz n (pos 0) then none else some n

module _ {W : Type 0} (r : Reconciler W) where
  open r use {cluster, passwords, config}

  abbrev pub change_spec_tags : (List Tag → List Tag) → Handler W (Unit {0})
  change_spec_tags f = modify (λ s. record s {
    claim = record (s.claim) { spec = record (s.claim.spec) { tags = f s.claim.spec.tags } };
  })

  -- `dbClaim.Spec.Tags = r.configureBackupPolicy(…)`
  unfoldable pub set_backup_policy : Handler W (Unit {0})
  unfolding configure_backup_policy
  set_backup_policy =
      here (λ s. change_spec_tags (configure_backup_policy config s.claim.spec.backup_policy))

  -- `DBClaimTags(dbClaim.Spec.Tags).DBTags()`, which sorts the tags of the claim in place
  unfoldable pub db_tags : Crossplane W → Handler W (List AwsTag)
  db_tags x = change_spec_tags x.sort_tags >> here (λ s. pure (aws_tags s.claim.spec.tags))

  -- getServiceNamespace
  unfoldable pub get_service_namespace : Result String
  get_service_namespace =
      if r.namespace == ""
      then err (message "service namespace env SERVICE_NAMESPACE must be set")
      else ok r.namespace

  -- manageMasterPassword of pkg/databaseclaim/secrets.go
  unfoldable pub manage_master_password : SecretKey → Exec W (Unit {0})
  unfolding generate_master_password
  manage_master_password secret = generate_master_password passwords >>= λ password w.
      rescue (cluster.get_secret secret.namespace secret.name w) w
        (λ e.
          if is_not_found e
          then cluster.create_secret secret.namespace secret.name ((secret.key, password) ∷ [])
          else fail e)
        (λ _. pure tt)
