-- ===== src/Aws/Updates.antt =====
-- updateDBClusterAWS and updateDBInstance of pkg/databaseclaim/awsprovider.go. Both change their copy
-- of the resource and send a patch where that differs from what was read; the result says whether a
-- patch was sent.
use db_controller.Prelude.{
  String, Bool, true, false, Option, none, some, List, [], ◌==◌, if◌then◌else◌,
}
use db_controller.Api.Claim.{postgres, aurora_postgres}
use db_controller.Config.{get_multi_az_enabled}
use db_controller.Cluster.{Handler, call, here}
use db_controller.Exec.{pure, lift, ◌>>=◌, ◌>>◌}
use db_controller.Reconciler.{Reconciler}
use db_controller.RequestInfo.{RequestInfo}
use db_controller.Tags.{AwsTag, operational_status_key, replace_or_add_tag}
use db_controller.Aws.{Instance, DbCluster, Crossplane, nonzero, set_backup_policy, db_tags}

-- OperationalStatusActiveValue
abbrev pub active : String
active = "active"

abbrev pub or_else {ℓ} : {A : Type ℓ} → Option A → Option A → Option A
or_else (some a) other = some a
or_else none other = other

-- the maintenance window of a claim
abbrev pub with_window : Option String → Instance → Instance
with_window window resource = record resource {
  preferred_maintenance_window = or_else window resource.preferred_maintenance_window;
}

module _ {W : Type 0} (r : Reconciler W) (x : Crossplane W) where
  open r use {config}
  open x use {is_same_instance, patch_instance, is_same_db_cluster, patch_db_cluster}

  -- the cluster with what a claim may change of it
  unfoldable updated_cluster : RequestInfo → List AwsTag → DbCluster → DbCluster
  updated_cluster info tags resource = record resource {
    tags = tags;
    backup_retention_period =
        or_else (nonzero info.backup_retention_days) resource.backup_retention_period;
    storage_type = some info.host_params.storage_type;
    deletion_policy = info.host_params.deletion_policy;
  }

  -- the patch, when there is one
  abbrev send_cluster : DbCluster → DbCluster → Handler W Bool
  send_cluster old new = lift (is_same_db_cluster old new) >>= λ same.
      if same then pure false else call (patch_db_cluster old new) >> pure true

  -- updateDBClusterAWS
  unfoldable pub update_db_cluster_aws : DbCluster → Handler W Bool
  unfolding updated_cluster set_backup_policy db_tags
  update_db_cluster_aws old = set_backup_policy r >> db_tags r x >>= λ tags.
      here (λ s. send_cluster old (updated_cluster s.info tags old))

  -- what a claim of a database, not of Aurora, may change of its instance
  unfoldable updated_storage : RequestInfo → Instance → Instance
  updated_storage info resource = record resource {
    allocated_storage = some info.host_params.min_storage_gb;
    max_allocated_storage = nonzero info.host_params.max_storage_gb;
    cloudwatch_logs_exports = info.enable_cloudwatch_logs_export;
    multi_az = some (get_multi_az_enabled config);
  }

  -- the instance with what a claim of the type may change of it
  unfoldable updated_instance : String → RequestInfo → List AwsTag → Instance → Instance
  unfolding updated_storage
  updated_instance type info tags resource =
      let stored = if type == postgres then updated_storage info resource else resource in
      record stored {
        tags = tags;
        enable_performance_insights = some info.enable_perf_insight;
        deletion_policy = info.host_params.deletion_policy;
        ca_certificate_identifier = some info.ca_certificate_identifier;
        cloudwatch_logs_exports =
            if type == aurora_postgres then [] else stored.cloudwatch_logs_exports;
      }

  -- The maintenance window of the claim is set behind the test for a change.
  abbrev send_instance : Option String → Instance → Instance → Handler W Bool
  send_instance window old new = lift (is_same_instance old new) >>= λ same.
      if same then pure false else call (patch_instance old (with_window window new)) >> pure true

  -- updateDBInstance
  unfoldable pub update_db_instance : Instance → Handler W Bool
  unfolding updated_instance set_backup_policy db_tags replace_or_add_tag
  update_db_instance old = set_backup_policy r >> db_tags r x >>= λ tags.
      lift (replace_or_add_tag tags operational_status_key active) >>= λ tagged. here (λ s.
        send_instance s.claim.spec.preferred_maintenance_window old
          (updated_instance s.claim.spec.db_type s.info tagged old))
