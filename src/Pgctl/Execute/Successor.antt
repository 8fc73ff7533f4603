-- ===== src/Pgctl/Execute/Successor.antt =====
-- No state of pkg/pgctl/pgctl.go that can be resumed returns a nil state without an error.
use db_controller.Prelude.{◌≢◌, refl, none, arith}
use db_controller.Api.Error.{ok}
use db_controller.Pgctl.Postgres.{Config, Databases}
use db_controller.Pgctl.State.{
  State, reroute_target_secret_state, wait_to_disable_source_state, completed_state, retry_state,
  initial_state, validate_connection_state, create_publication_state, copy_schema_state,
  create_subscription_state, enable_subscription_state, cut_over_readiness_check_state,
  reset_target_sequence_state, disable_source_access_state, validate_migration_status_state,
  disable_subscription_state, delete_subscription_state, delete_publication_state,
}
use db_controller.Pgctl.Execute.{
  execute, execute_initial, execute_validate_connection, execute_create_publication,
  execute_copy_schema, execute_create_subscription, execute_enable_subscription,
  execute_cut_over_readiness_check, execute_reset_target_sequence, execute_disable_source_access,
  execute_validate_migration_status, execute_disable_subscription, execute_delete_subscription,
  execute_delete_publication,
}

module _ {W : Type 0} (db : Databases W) (config : Config) where
  initial-goes_on : (w : W) → (execute_initial db config w).0 ≢ ok none
  unfolding execute_initial
  initial-goes_on w h = ground arith

  validate_connection-goes_on : (w : W) → (execute_validate_connection db config w).0 ≢ ok none
  unfolding execute_validate_connection
  validate_connection-goes_on w h = ground arith

  create_publication-goes_on : (w : W) → (execute_create_publication db config w).0 ≢ ok none
  unfolding execute_create_publication
  create_publication-goes_on w h = ground arith

  copy_schema-goes_on : (w : W) → (execute_copy_schema db config w).0 ≢ ok none
  unfolding execute_copy_schema
  copy_schema-goes_on w h = ground arith

  create_subscription-goes_on : (w : W) → (execute_create_subscription db config w).0 ≢ ok none
  unfolding execute_create_subscription
  create_subscription-goes_on w h = ground arith

  enable_subscription-goes_on : (w : W) → (execute_enable_subscription db config w).0 ≢ ok none
  unfolding execute_enable_subscription
  enable_subscription-goes_on w h = ground arith

  cut_over_readiness_check-goes_on :
      (w : W) → (execute_cut_over_readiness_check db config w).0 ≢ ok none
  unfolding execute_cut_over_readiness_check
  cut_over_readiness_check-goes_on w h = ground arith

  reset_target_sequence-goes_on : (w : W) → (execute_reset_target_sequence db config w).0 ≢ ok none
  unfolding execute_reset_target_sequence
  reset_target_sequence-goes_on w h = ground arith

  disable_source_access-goes_on : (w : W) → (execute_disable_source_access db config w).0 ≢ ok none
  unfolding execute_disable_source_access
  disable_source_access-goes_on w h = ground arith

  validate_migration_status-goes_on :
      (w : W) → (execute_validate_migration_status db config w).0 ≢ ok none
  unfolding execute_validate_migration_status
  validate_migration_status-goes_on w h = ground arith

  disable_subscription-goes_on : (w : W) → (execute_disable_subscription db config w).0 ≢ ok none
  unfolding execute_disable_subscription
  disable_subscription-goes_on w h = ground arith

  delete_subscription-goes_on : (w : W) → (execute_delete_subscription db config w).0 ≢ ok none
  unfolding execute_delete_subscription
  delete_subscription-goes_on w h = ground arith

  delete_publication-goes_on : (w : W) → (execute_delete_publication db config w).0 ≢ ok none
  unfolding execute_delete_publication
  delete_publication-goes_on w h = ground arith

  -- A state other than the two ends has a successor whenever its execution succeeds.
  execute-ne-none :
      (s : State) (w : W)
      → s ≢ completed_state
      → s ≢ retry_state
      → (execute db config s w).0 ≢ ok none
  unfolding execute
  execute-ne-none initial_state w c r h = initial-goes_on w h
  execute-ne-none validate_connection_state w c r h = validate_connection-goes_on w h
  execute-ne-none create_publication_state w c r h = create_publication-goes_on w h
  execute-ne-none copy_schema_state w c r h = copy_schema-goes_on w h
  execute-ne-none create_subscription_state w c r h = create_subscription-goes_on w h
  execute-ne-none enable_subscription_state w c r h = enable_subscription-goes_on w h
  execute-ne-none cut_over_readiness_check_state w c r h = cut_over_readiness_check-goes_on w h
  execute-ne-none reset_target_sequence_state w c r h = reset_target_sequence-goes_on w h
  execute-ne-none disable_source_access_state w c r h = disable_source_access-goes_on w h
  execute-ne-none validate_migration_status_state w c r h = validate_migration_status-goes_on w h
  execute-ne-none disable_subscription_state w c r h = disable_subscription-goes_on w h
  execute-ne-none delete_subscription_state w c r h = delete_subscription-goes_on w h
  execute-ne-none delete_publication_state w c r h = delete_publication-goes_on w h
  execute-ne-none reroute_target_secret_state w c r h = cc
  execute-ne-none wait_to_disable_source_state w c r h = cc
  execute-ne-none completed_state w c r h = c refl
  execute-ne-none retry_state w c r h = r refl
