-- ===== src/Cleanup.antt =====
-- The end of a migration: postMigrationInProgress in pkg/databaseclaim/databaseclaim.go, and the
-- deletions of pkg/databaseclaim/awsprovider.go that it makes.
pub mod Retention
use db_controller.Prelude.{
  ℕ, ℤ, pos, ◌-◌, ltb, String, Bool, true, false, Option, none, some, ◌==◌, ◌<>◌, is_some, before,
  if◌then◌else◌,
}
use db_controller.Api.Error.{Err, Result, ok, err, panic, is_not_found}
use db_controller.Api.Connection.{ConnectionInfo}
use db_controller.Api.Claim.{DatabaseClaim, aurora_postgres, no_old_db}
use db_controller.Cluster.{Cluster, Context, Handler, call}
use db_controller.Config.{Viper, get_multi_az_enabled}
use db_controller.Exec.{Exec, pure, crash, lift, modify, rescue, attempt, ◌>>=◌, ◌>>◌}
use db_controller.RequestInfo.{deref}
use db_controller.StatusManager.{
  Outcome, requeue_now, requeue_in, with_status, clear_error, update_status,
}
use db_controller.Tags.{
  Kind, parameter_group, cluster_parameter_group, db_cluster, db_instance, Resources,
  manage_operational_tagging,
}

-- The names that the old database's host and version give: its instance and its parameter group.
abbrev pub instance_name : ConnectionInfo → String
instance_name c = before b'.' c.host

abbrev pub is_aurora : DatabaseClaim → Bool
is_aurora claim = claim.status.old_db.db_type == aurora_postgres

abbrev pub group_name : DatabaseClaim → ConnectionInfo → String
group_name claim c =
    instance_name c
    <> (if is_aurora claim then "-a-" else "-")
    <> before b'.' claim.status.old_db.db_version

module _ {W : Type 0} (resources : Resources W) where
  open resources use {get_resource, delete_resource}

  -- a resource that is there, and is not being deleted, is deleted
  unfoldable pub delete_if_there : Kind → String → Exec W (Unit {0})
  delete_if_there kind name w =
      rescue (get_resource kind name w) w (λ e v. if is_not_found e then (ok tt, v) else (err e, v))
        (λ r. if is_some r.deletion_timestamp then pure tt else delete_resource kind name)

  -- deleteParameterGroupAWS
  unfoldable pub delete_parameter_group_aws : String → Exec W (Unit {0})
  unfolding delete_if_there
  delete_parameter_group_aws name =
      delete_if_there parameter_group name >> delete_if_there cluster_parameter_group name

  -- deleteCloudDatabaseAWS
  unfoldable pub delete_cloud_database_aws : Viper → String → Exec W (Unit {0})
  unfolding delete_if_there
  delete_cloud_database_aws cfg name =
      (if get_multi_az_enabled cfg then delete_if_there db_instance (name <> "-2") else pure tt)
      >> delete_if_there db_instance name
      >> delete_if_there db_cluster name

  module _ (cluster : Cluster W) (cfg : Viper) where
    open cluster use {now}

    -- a call whose error is only logged
    abbrev logged : Exec W (Unit {0}) → Handler W (Unit {0})
    logged m = attempt (call m) (λ _. pure tt) (λ _. pure tt)

    -- the deletions, behind which the claim forgets the old database
    unfoldable pub delete_old_db : ConnectionInfo → Handler W (Unit {0})
    unfolding delete_parameter_group_aws delete_cloud_database_aws
    delete_old_db c s =
        (logged (delete_parameter_group_aws (group_name s.claim c))
            >> logged (delete_cloud_database_aws cfg (instance_name c))
            >> modify (λ t. record t {
              claim = with_status (λ st. record st { old_db = no_old_db }) t.claim;
            }))
          s

    -- `shouldDelete`, from what the tagging returns
    unfoldable pub should_delete : Result Bool → Handler W Bool
    should_delete (err e) s = (ok true, s)
    should_delete (ok true) s = (ok true, s)
    should_delete (ok false) s =
        (lift (deref s.claim.status.old_db.post_migration_action_started_at) >>= λ started.
        pure (ltb 600 (now s.world - started)))
          s
    should_delete panic s = (panic, s)

    -- behind the deletions
    unfoldable pub report_post_migration : Handler W Outcome
    unfolding clear_error update_status
    report_post_migration = clear_error cluster >> update_status cluster >> λ s.
        (ok (if is_some s.claim.deletion_timestamp then requeue_now else requeue_in (pos 60)), s)

    unfoldable pub finish_post_migration : ConnectionInfo → Result Bool → Handler W Outcome
    unfolding should_delete delete_old_db report_post_migration
    finish_post_migration c tagged = should_delete tagged >>= λ b.
        (if b then delete_old_db c else pure tt) >> report_post_migration

    -- postMigrationInProgress
    unfoldable pub post_migration_in_progress : Handler W Outcome
    unfolding finish_post_migration manage_operational_tagging
    post_migration_in_progress s =
        (lift (deref s.claim.status.old_db.connection_info) >>= λ c t.
        let tagged =
          manage_operational_tagging resources cfg (instance_name c) (group_name t.claim c)
            (is_aurora t.claim) t.world in
        finish_post_migration c tagged.0 (record t { world = tagged.1 }))
          s
