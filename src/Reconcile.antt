-- ===== src/Reconcile.antt =====
-- pkg/databaseclaim/databaseclaim.go: executeDbClaimRequest, and the parts of Reconcile.
pub mod Entry
use db_controller.Prelude.{
  ltz, pos, String, Bool, true, false, not, ◌&&◌, ◌||◌, Option, none, some, List, [], ◌∷◌, ◌++◌,
  ◌==◌, get_or, is_some, if◌then◌else◌,
}
use db_controller.Api.Claim.{DatabaseClaim, no_status, ready, using_shared_host, dsn_key}
use db_controller.Api.Condition.{deleting_condition}
use db_controller.Api.Connection.{ConnectionInfo, no_connection}
use db_controller.Api.Error.{Err, Result, ok, err, panic, message, is_not_found, ◌>>=◌ as ◌>>>=◌}
use db_controller.Cleanup.{post_migration_in_progress}
use db_controller.Cluster.{Cluster, Context, Handler, call, here}
use db_controller.Config.{get_cloud, get_password_rotation_period}
use db_controller.ConnectionString.Uri.{parse_uri}
use db_controller.Credentials.Source.{database_of}
use db_controller.ExistingDb.{hand_out, reconcile_use_existing_db}
use db_controller.Exec.{Exec, pure, fail, lift, modify, attempt, rescue, ◌>>=◌, ◌>>◌}
use db_controller.Migration.Begin.{reconcile_migrate_to_new_db, reconcile_migration_in_progress}
use db_controller.Mode.{
  ModeEnum, get_mode, not_supported, use_existing_db, migrate_existing_to_new_db,
  migration_in_progress, use_new_db, initiate_db_upgrade, upgrade_db_in_progress, post_migration,
}
use db_controller.Pgctl.State.{completed, enum_string}
use db_controller.Provisioning.{reconcile_new_db}
use db_controller.Reconciler.{Reconciler}
use db_controller.RequestInfo.{RequestInfo, deref, new_request_info}
use db_controller.StatusManager.{
  Outcome, no_requeue, with_status, update_status, set_condition_and_update_status, set_error,
  success_and_update_condition, active_db_success_reconcile,
}

abbrev pub finalizer_name : String
finalizer_name = "databaseclaims.persistance.atlas.infoblox.com/finalizer"

-- isClassPermitted of the claim controller
unfoldable pub is_claim_class_permitted : String → Option String → Bool
is_claim_class_permitted ctrl_class claim_class = get_or claim_class "default" == ctrl_class

-- validateDBClaim, whose error is only logged; and the defaults that Reconcile sets
unfoldable pub with_defaults : DatabaseClaim → DatabaseClaim
with_defaults claim = record claim {
  spec = record (claim.spec) {
    dsn_name = if claim.spec.dsn_name == "" then dsn_key else claim.spec.dsn_name;
    class = some (get_or claim.spec.class "default");
  };
  status = record (claim.status) {
    active_db = record (claim.status.active_db) {
      connection_info = some (get_or claim.status.active_db.connection_info no_connection);
    };
    new_db = record (claim.status.new_db) {
      connection_info = some (get_or claim.status.new_db.connection_info no_connection);
    };
  };
}

-- controllerutil's ContainsFinalizer and RemoveFinalizer
unfoldable pub contains_finalizer : String → List String → Bool
contains_finalizer f [] = false
contains_finalizer f (g ∷ gs) = g == f || contains_finalizer f gs

unfoldable pub remove_finalizer : String → List String → List String
remove_finalizer f [] = []
remove_finalizer f (g ∷ gs) = let rest = remove_finalizer f gs in if g == f then rest else g ∷ rest

-- status.activeDB becomes status.newDB, which becomes empty with the given connection
abbrev pub take_new_db : {W : Type 0} → Option ConnectionInfo → Handler W (Unit {0})
take_new_db rest = modify (λ s. record s {
  claim =
      with_status
        (λ st. record st {
          active_db = st.new_db;
          new_db = record no_status { connection_info = rest };
        })
        s.claim;
})

-- whether the active database is the one that the claim names
unfoldable pub is_reconciled : ConnectionInfo → ConnectionInfo → Bool
is_reconciled active existing = not (
    not (active.database_name == existing.database_name)
    || (not (active.host == existing.host) && not (active.port == existing.port)))

-- whether a migration keeps a claim from being deleted
unfoldable pub is_migrating : DatabaseClaim → Bool
unfolding enum_string
is_migrating claim =
    not (claim.status.migration_state == "")
    && not (claim.status.migration_state == enum_string completed)

module _ {W : Type 0} (r : Reconciler W) where
  open r use {cluster, sql, resources, provider, config}

  -- the mode of an existing database
  unfoldable pub run_use_existing_db : Handler W Outcome
  unfolding reconcile_use_existing_db set_error success_and_update_condition
  run_use_existing_db =
      attempt (reconcile_use_existing_db r use_existing_db) (set_error cluster) (λ _.
        take_new_db none
        >> here (λ s.
          if is_some s.claim.status.active_db.connection_info
          then success_and_update_condition cluster (get_password_rotation_period config)
          else set_error cluster (message "invalid new db connection")))

  -- the connections of the active database and of the one that the claim names
  abbrev named_connections : DatabaseClaim → Result (ConnectionInfo × ConnectionInfo)
  named_connections claim = deref claim.spec.source_data_from >>>= λ source.
      database_of source >>>= λ database. parse_uri sql database.dsn >>>= λ existing.
      deref claim.status.active_db.connection_info >>>= λ active. ok (active, existing)

  unfoldable pub run_migrate_existing : Handler W Outcome
  unfolding parse_uri is_reconciled reconcile_use_existing_db reconcile_migrate_to_new_db set_error
  run_migrate_existing s = rescue (named_connections s.claim) s (set_error cluster) (λ c.
      if is_reconciled c.0 c.1
      then reconcile_migrate_to_new_db r migrate_existing_to_new_db
      else attempt (reconcile_use_existing_db r migrate_existing_to_new_db) (set_error cluster)
          (λ _.
            take_new_db (some no_connection)
            >> reconcile_migrate_to_new_db r migrate_existing_to_new_db))

  -- status.activeDB of a database that is made, and the state that it is in
  unfoldable pub activate : Handler W (Unit {0})
  activate =
      take_new_db none
      >> modify (λ s. record s {
        claim =
            with_status
              (λ st. record st {
                active_db = record (st.active_db) {
                  db_state = if s.info.shared_db_host then using_shared_host else ready;
                };
              })
              s.claim;
      })

  unfoldable pub run_use_new_db : Handler W Outcome
  unfolding reconcile_new_db hand_out activate set_error active_db_success_reconcile
  run_use_new_db = attempt (reconcile_new_db r use_new_db) (set_error cluster) (λ result.
      if ltz (pos 0) result.requeue_after
      then pure result
      else attempt (hand_out r) (set_error cluster) (λ _.
        activate >> active_db_success_reconcile cluster (get_password_rotation_period config)))

  -- the error of postMigrationInProgress is returned, whatever SetError says
  unfoldable pub run_post_migration : Handler W Outcome
  unfolding post_migration_in_progress set_error
  run_post_migration =
      attempt (post_migration_in_progress resources cluster config)
        (λ e. attempt (set_error cluster e) (λ _. fail e) (λ _. fail e)) pure

  unfoldable pub run_mode : ModeEnum → Handler W Outcome
  unfolding run_post_migration run_use_existing_db run_migrate_existing reconcile_migrate_to_new_db
      reconcile_migration_in_progress run_use_new_db set_error
  run_mode post_migration = run_post_migration
  run_mode use_existing_db = run_use_existing_db
  run_mode migrate_existing_to_new_db = run_migrate_existing
  run_mode initiate_db_upgrade = reconcile_migrate_to_new_db r initiate_db_upgrade
  run_mode migration_in_progress = reconcile_migration_in_progress r migration_in_progress
  run_mode upgrade_db_in_progress = reconcile_migration_in_progress r upgrade_db_in_progress
  run_mode use_new_db = run_use_new_db
  run_mode not_supported = set_error cluster (message "unsupported operation requested")

  abbrev pub is_supported : ModeEnum → Bool
  is_supported not_supported = false
  is_supported _ = true

  -- executeDbClaimRequest
  unfoldable pub execute_db_claim_request : Handler W Outcome
  unfolding get_mode run_mode update_status set_error
  execute_db_claim_request s =
      let chosen = get_mode s.info s.claim in
      (if is_supported chosen.0
          then attempt (update_status cluster) (set_error cluster) (λ _. run_mode chosen.0)
          else run_mode chosen.0)
        (record s { claim = chosen.1 })

  abbrev update_finalizers : (List String → List String) → Handler W (Unit {0})
  update_finalizers f =
      modify (λ s. record s { claim = record (s.claim) { finalizers = f s.claim.finalizers } })
      >> here (λ s. call (cluster.update_claim s.claim))

  -- the deletion of a claim that has the finalizer
  unfoldable pub delete_claim : Handler W Outcome
  unfolding set_condition_and_update_status is_migrating update_status execute_db_claim_request
      remove_finalizer
  delete_claim =
      set_condition_and_update_status cluster deleting_condition
      >> here (λ s.
        if is_migrating s.claim
        then modify (λ s. record s {
          claim =
              with_status
                (λ st. record st { error = "dbc cannot be deleted while migration is in progress" })
                s.claim;
        })
          >> attempt (update_status cluster) (λ _. execute_db_claim_request)
              (λ _. execute_db_claim_request)
        else (if get_cloud config == "aws"
            then provider.delete_external_resources_aws
            else provider.delete_external_resources_gcp)
          >> update_finalizers (remove_finalizer finalizer_name)
          >> pure no_requeue)

  -- Reconcile behind NewRequestInfo
  unfoldable pub reconcile_claim : Handler W Outcome
  unfolding contains_finalizer delete_claim execute_db_claim_request
  reconcile_claim = here (λ s.
      if is_some s.claim.deletion_timestamp
      then (if contains_finalizer finalizer_name s.claim.finalizers
          then delete_claim
          else pure no_requeue)
      else (if contains_finalizer finalizer_name s.claim.finalizers
          then pure tt
          else update_finalizers (λ fs. fs ++ finalizer_name ∷ []))
        >> (if r.metrics_enabled then provider.create_metrics_deployment else pure tt)
        >> execute_db_claim_request)
