-- ===== src/Gcp.antt =====
-- pkg/databaseclaim/gcpprovider.go: the hosts of databases on GCP. `Alloy` holds the calls of the API
-- server for the resources of AlloyDB; these are records of the fields that the program sets or
-- reads, without labels.
pub mod Hosts
pub mod Connection
pub mod Kept
pub mod Connected
use db_controller.Prelude.{ℕ, String, Bool, Option, List, Map}
use db_controller.Api.Error.{Result}
use db_controller.Aws.{ResourceCondition, SecretKey}
use db_controller.Exec.{Exec}

-- AutomatedBackupPolicyParameters; the count is a number that is only passed on
pub record BackupPolicy : Type 0 where
  pub enabled : Bool
  pub retention_count : Option String

pub record AlloyCluster : Type 0 where
  pub name : String
  pub automated_backup_policy : Option BackupPolicy
  pub database_version : String
  pub provider_deletion_policy : String
  pub display_name : String
  pub master_secret : SecretKey
  pub master_username : String
  pub location : String
  pub psc_enabled : Bool
  pub connection_secret : SecretKey
  pub provider_config : String
  pub deletion_policy : String
  pub conditions : List ResourceCondition
  pub deletion_timestamp : Option ℕ

-- PscInstanceConfigObservation
pub record PscStatus : Type 0 where
  pub psc_dns_name : Option String
  pub service_attachment_link : Option String

pub record AlloyInstance : Type 0 where
  pub name : String
  pub availability_type : String
  pub ssl_mode : String
  pub cluster_ref : String
  pub display_name : String
  pub gce_zone : String
  pub instance_type : String
  pub enable_public_ip : Bool
  pub allowed_consumer_projects : List String
  pub database_flags : Map String
  pub provider_config : String
  pub deletion_policy : String
  pub psc_status : Option PscStatus
  pub conditions : List ResourceCondition
  pub deletion_timestamp : Option ℕ

-- XNetworkRecord
pub record NetworkRecord : Type 0 where
  pub name : String
  pub namespace : String
  pub psc_dns_name : String
  pub service_attachment_link : String
  pub region : String
  pub subnetwork : String
  pub network : String

pub record Alloy (W : Type 0) : Type 0 where
  pub get_cluster : String → W → Result AlloyCluster
  pub create_cluster : AlloyCluster → Exec W (Unit {0})
  -- by the object before its change and the object behind it
  pub patch_cluster : AlloyCluster → AlloyCluster → Exec W (Unit {0})
  pub delete_cluster : String → Exec W (Unit {0})
  pub get_instance : String → W → Result AlloyInstance
  pub create_instance : AlloyInstance → Exec W (Unit {0})
  pub delete_instance : String → Exec W (Unit {0})
  pub get_network_record : String → W → Result NetworkRecord
  pub create_network_record : NetworkRecord → Exec W (Unit {0})
  -- viper's GetFloat64 of the key numbackupstoretain
  pub num_backups_to_retain : String
  -- strconv.Quote
  pub quote : String → String
