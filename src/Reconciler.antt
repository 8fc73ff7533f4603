-- ===== src/Reconciler.antt =====
-- DatabaseClaimReconciler of pkg/databaseclaim/databaseclaim.go, with all that it calls: the API
-- server, PostgreSQL, the states' databases, the tags of cloud resources, the settings, and the
-- cloud providers of pkg/databaseclaim/awsprovider.go and gcpprovider.go, whose work `Provider`
-- holds as handlers that may change the claim, the request and the world in any way.
use db_controller.Prelude.{ℕ, String, Bool}
use db_controller.Api.Error.{Result}
use db_controller.Cluster.{Cluster, Handler}
use db_controller.Config.{Viper}
use db_controller.Mode.{ModeEnum}
use db_controller.Passwords.{Passwords}
use db_controller.Pgctl.Postgres.{Databases}
use db_controller.Sql.{Sql}
use db_controller.Tags.{Resources}

pub record Provider (W : Type 0) : Type 0 where
  -- whether the host is ready
  pub manage_cloud_host_aws : ModeEnum → Handler W Bool
  pub manage_cloud_host_gcp : Handler W Bool
  pub delete_external_resources_aws : Handler W (Unit {0})
  pub delete_external_resources_gcp : Handler W (Unit {0})
  -- the Get of the cloud's instance and of its cluster, by name
  pub get_instance : String → W → Result (Unit {0})
  pub get_cluster : String → W → Result (Unit {0})
  -- Apply of pkg/postgres-exporter, for the claim
  pub create_metrics_deployment : Handler W (Unit {0})

pub record Reconciler (W : Type 0) : Type 0 where
  pub cluster : Cluster W
  pub sql : Sql W
  pub databases : Databases W
  pub resources : Resources W
  pub passwords : Passwords W
  pub provider : Provider W
  -- crc32.Checksum, with the table of the hosts' names
  pub checksum : String → ℕ
  pub config : Viper
  pub class : String
  pub namespace : String
  pub metrics_enabled : Bool
