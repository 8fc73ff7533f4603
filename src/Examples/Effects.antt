-- ===== src/Examples/Effects.antt =====
-- The theorems on calls, in small worlds.
use db_controller.Prelude.{
  ◌<◌, pos, true, false, ◌≡◌, ◌≢◌, ◌↔◌, refl, none, some, [], ◌∷◌, All, ◌<>◌, arith, ◌==◌, ◌&&◌,
  ◌+◌,
}
use db_controller.Api.Error.{Result, ok, err, panic, failed, wrapped}
use db_controller.Api.Claim.{DatabaseClaim, no_status, no_old_db}
use db_controller.Api.Condition.{
  condition_ready, condition_sync, database_ready_condition, reconcile_success_condition,
  no_db_version_status, error_text,
}
use db_controller.Cleanup.{post_migration_in_progress, instance_name, group_name, is_aurora}
use db_controller.Cleanup.Retention.{Decided, post_migration-Decided}
use db_controller.Credentials.{validate_and_update_creds, validate_and_update_creds_dsn}
use db_controller.Credentials.Laws.{validate_and_update_creds_dsn-pings, unrepaired_login}
use db_controller.Cluster.{Cluster, Context}
use db_controller.Migration.{Turn, again, take_turn}
use db_controller.Migration.Turns.{take_turn-again}
use db_controller.Migration.Fuel.{Suffices, take_turns-Suffices}
use db_controller.Pgctl.Execute.{execute, execute_cut_over_readiness_check, execute_initial}
use db_controller.Pgctl.Execute.Counts.{IsCounted, IsReached, validate_migration_iff}
use db_controller.Pgctl.Execute.Progress.{◌⟶◌}
use db_controller.Pgctl.Execute.InStep.{Follows, execute-Follows}
use db_controller.Pgctl.State.{
  id, number, cut_over_readiness_check_state, reset_target_sequence_state, initial_state,
  validate_connection_state, validate_migration_status_state, disable_subscription_state,
  completed_state, retry_state, get_replicator_state,
}
use db_controller.Secrets.{
  set_source_dsn_in_temp_secret, set_target_password_in_temp_secret,
  get_source_dsn_from_temp_secret, get_target_password_from_temp_secret, create_or_update_secret,
}
use db_controller.Secrets.RoundTrip as RoundTrip
use db_controller.Secrets.RoundTrip.{temp_secret_round_trip, unread_secret_panics}
use db_controller.StatusManager.{
  requeue_in, with_status, success_and_update_condition, set_error, active_db_success_reconcile,
}
use db_controller.StatusManager.Conditions.{find_condition}
use db_controller.StatusManager.Reports.{
  Shows, IsStored, success-Shows, set_error-Shows, removed_mark_unstored,
}
use db_controller.Tags.{
  Resources, manage_operational_tagging, db_instance, operational_tagging,
  operational_tagging_for_db_instance, is_marked_inactive, Resource,
}
use db_controller.Tags.Operational as Operational
use db_controller.Tags.Operational.{operational_tagging-settles, verified_seen}
use db_controller.Examples.Fixtures.{
  sql, root_client, settings, World, start, cluster, databases, migration_config, claim, connection,
  resources, instance_tags,
}
use db_controller.Examples.Pure.{info}

abbrev context : Context World
context = record { claim = claim; info = info; world = start }

begins :
    (execute databases migration_config initial_state start).0 ≡ ok (some validate_connection_state)
unfolding execute execute_initial
begins = refl

ready :
    (execute databases migration_config cut_over_readiness_check_state start).0
    ≡ ok (some reset_target_sequence_state)
unfolding execute execute_cut_over_readiness_check
ready = refl

execute-Follows_example :
    Follows databases migration_config start cut_over_readiness_check_state
      reset_target_sequence_state
execute-Follows_example =
    execute-Follows databases migration_config cut_over_readiness_check_state
      reset_target_sequence_state start ready

validate_migration_iff_example :
    let done = execute databases migration_config validate_migration_status_state start in
    ((done ≡ (ok (some disable_subscription_state), start))
      ↔ All (IsReached databases migration_config start) (("users", 3) ∷ []))
    × ((done ≡ (ok (some retry_state), start)) ↔ (
        All (IsCounted databases migration_config start) (("users", 3) ∷ [])
        × (¬ All (IsReached databases migration_config start) (("users", 3) ∷ []))))
    × (done.1 ≡ start)
validate_migration_iff_example =
    validate_migration_iff databases migration_config start (("users", 3) ∷ []) refl refl refl

abbrev turn : Result Turn × Context World
turn =
    take_turn cluster databases migration_config (λ s. s) (pos 3600) "dsn" connection initial_state
      context

turns : turn.0 ≡ ok (again validate_connection_state)
unfolding take_turn execute_initial
turns = refl

take_turn-again_example :
    (initial_state ⟶ validate_connection_state)
    × ((validate_connection_state ≢ completed_state) × (validate_connection_state ≢ retry_state))
    × ((w : World) × (cluster.update_claim_status turn.1.claim w ≡ (ok tt, turn.1.world)))
    × (get_replicator_state turn.1.claim.status.migration_state ≡ ok validate_connection_state)
take_turn-again_example =
    take_turn-again cluster databases migration_config (λ s. s) (pos 3600) "dsn" connection
      initial_state validate_connection_state context turns

enough : 17 < number (id initial_state) + 18
unfolding number id
enough = omega arith

take_turns-Suffices_example :
    Suffices cluster databases migration_config
      (λ s. s)
      (pos 3600)
      "dsn"
      connection
      18
      initial_state
      context
take_turns-Suffices_example =
    take_turns-Suffices cluster databases migration_config (λ s. s) (pos 3600) "dsn" connection 18
      initial_state context enough

succeeds : (success_and_update_condition cluster (pos 3600) context).0 ≡ ok (requeue_in (pos 3600))
unfolding success_and_update_condition
succeeds = refl

success-Shows_example :
    let s' = (success_and_update_condition cluster (pos 3600) context).1 in
    Shows condition_ready "True" reconcile_success_condition.message s'.claim
    × Shows condition_sync "True" database_ready_condition.message s'.claim
    × (s'.claim.status.error ≡ "")
    × IsStored cluster s'
success-Shows_example =
    success-Shows cluster (pos 3600) context (requeue_in (pos 3600)) refl succeeds

set_error-Shows_example :
    ((set_error cluster (failed "timeout") context).0 ≢ ok (requeue_in (pos 60)))
    × Shows condition_ready "False"
        ("Reconciliation encountered an issue: " <> error_text (failed "timeout"))
        (set_error cluster (failed "timeout") context).1.claim
set_error-Shows_example =
    set_error-Shows cluster (failed "timeout") context (requeue_in (pos 60)) refl

versioned : (active_db_success_reconcile cluster (pos 3600) context).0 ≡ ok (requeue_in (pos 3600))
unfolding active_db_success_reconcile
versioned = refl

has_version :
    let s' = (success_and_update_condition cluster (pos 3600) context).1 in
    (s'.claim.status.active_db.db_state == "ready" && s'.claim.spec.db_version == "") ≡ false
unfolding success_and_update_condition
has_version = refl

removed_mark_unstored_example :
    let s' = (success_and_update_condition cluster (pos 3600) context).1 in
    let after = (active_db_success_reconcile cluster (pos 3600) context).1 in
    (find_condition no_db_version_status.type after.claim.status.conditions ≡ none)
    × (after.world ≡ s'.world)
removed_mark_unstored_example =
    removed_mark_unstored cluster (pos 3600) context (requeue_in (pos 3600)) has_version versioned

secret_reads : RoundTrip.ReadsBack cluster
secret_reads namespace name d w h = refl

abbrev first : Result (Unit {0}) × World
first = set_target_password_in_temp_secret cluster "secret" claim start

abbrev second : Result (Unit {0}) × World
second = set_source_dsn_in_temp_secret cluster "postgres://a" claim first.1

first-succeeds : first.0 ≡ ok tt
unfolding set_target_password_in_temp_secret
first-succeeds = refl

second-succeeds : second.0 ≡ ok tt
unfolding set_source_dsn_in_temp_secret set_target_password_in_temp_secret
second-succeeds = refl

temp_secret_round_trip_example :
    (get_target_password_from_temp_secret cluster claim second.1 ≡ ok "secret")
    × (get_source_dsn_from_temp_secret cluster claim second.1 ≡ ok "postgres://a")
temp_secret_round_trip_example =
    temp_secret_round_trip cluster secret_reads claim "secret" "postgres://a" start refl
      first-succeeds second-succeeds

abbrev unconnected : DatabaseClaim
unconnected = with_status (λ s. record s { active_db = no_status }) claim

-- a cluster whose secrets cannot be read
abbrev unreadable : Cluster World
unreadable = record cluster { get_secret = λ _ _ _. err (failed "timeout") }

unread_secret_panics_example :
    create_or_update_secret unreadable (λ s. s) claim connection "aws" start ≡ (panic, start)
unread_secret_panics_example =
    unread_secret_panics unreadable (λ s. s) claim connection "aws" start (failed "timeout") refl
      refl refl

tags_read : Operational.ReadsBack resources
tags_read kind name tags r h = (record r { tags = tags }, refl, refl)

tagged : (operational_tagging resources db_instance "db" instance_tags).0 ≡ ok tt
unfolding operational_tagging
tagged = refl

operational_tagging-settles_example :
    let w' = (operational_tagging resources db_instance "db" instance_tags).1 in
    operational_tagging resources db_instance "db" w' ≡ (ok tt, w')
operational_tagging-settles_example =
    operational_tagging-settles resources tags_read db_instance "db" instance_tags instance_tags
      refl (("team", "core", refl, refl), tt) tagged

abbrev marked : Resource
marked = record {
  tags = record { key = some "operational-status"; value = some "inactive" } ∷ [];
  provider_tags = record { key = some "operational-status"; value = some "inactive" } ∷ [];
  deletion_timestamp = none;
}

verified : (operational_tagging_for_db_instance resources "db" marked).0 ≡ ok true
unfolding operational_tagging_for_db_instance
verified = refl

verified_seen_example :
    (is_marked_inactive marked.tags ≡ ok true)
    × (is_marked_inactive marked.provider_tags ≡ ok true)
    × ((operational_tagging_for_db_instance resources "db" marked).1 ≡ marked)
verified_seen_example = verified_seen resources "db" marked marked refl verified

-- resources that are there, and not yet tagged
abbrev untagged : Resources World
untagged = record {
  get_resource = λ _ _ _. ok instance_tags;
  patch_tags = λ _ _ _ w. (ok tt, w);
  delete_resource = λ _ _ w. (ok tt, w);
}

abbrev migrated : Context World
migrated = record context {
  claim =
      with_status
        (λ s. record s {
          old_db = record no_old_db {
            connection_info = some connection;
            db_version = "14.1";
            post_migration_action_started_at = some 40;
          };
        })
        claim;
}

cleans_up :
    (post_migration_in_progress untagged cluster settings migrated).0 ≡ ok (requeue_in (pos 60))
unfolding post_migration_in_progress
cleans_up = refl

post_migration-Decided_example :
    let tagged =
      manage_operational_tagging untagged settings
        (instance_name connection)
        (group_name migrated.claim connection)
        (is_aurora migrated.claim)
        start in
    Decided untagged cluster settings tagged.0
      (record migrated { world = tagged.1 })
      (post_migration_in_progress untagged cluster settings migrated).1.claim.status.old_db
post_migration-Decided_example =
    post_migration-Decided untagged cluster settings connection migrated (requeue_in (pos 60)) refl
      cleans_up

checked : (validate_and_update_creds_dsn sql "root" "app" start).0 ≡ ok tt
unfolding validate_and_update_creds_dsn
checked = refl

validate_and_update_creds_dsn-pings_example :
    sql.ping "app" (validate_and_update_creds_dsn sql "root" "app" start).1 ≡ ok tt
validate_and_update_creds_dsn-pings_example =
    validate_and_update_creds_dsn-pings sql "root" "app" start refl checked

unrepaired_login_example : validate_and_update_creds sql root_client "user" start ≡ (
  err (
      wrapped "unable_create_dbclient: "
        (wrapped "could not connect to admin database: " (failed "password"))),
  start,
)
unrepaired_login_example =
    unrepaired_login sql root_client "user" "refused" (failed "password") start refl refl refl refl
      refl refl
