-- ===== src/Pgctl/Execute/Progress.antt =====
-- A migration of pkg/pgctl/pgctl.go goes through its states in one order.
use db_controller.Prelude.{◌<◌, ◌≡◌, sym, subst, ◌≢◌, ◌⊎◌, inl, inr, none, some, arith}
use db_controller.Api.Error.{ok}
use db_controller.Pgctl.Postgres.{Config, Databases}
use db_controller.Pgctl.State.{
  State, initial_state, validate_connection_state, create_publication_state, copy_schema_state,
  create_subscription_state, enable_subscription_state, cut_over_readiness_check_state,
  reset_target_sequence_state, reroute_target_secret_state, wait_to_disable_source_state,
  disable_source_access_state, validate_migration_status_state, disable_subscription_state,
  delete_subscription_state, delete_publication_state, completed_state, retry_state, number, id,
}
use db_controller.Pgctl.Execute.{
  execute, execute_initial, execute_validate_connection, execute_create_publication,
  execute_copy_schema, execute_create_subscription, execute_enable_subscription,
  execute_cut_over_readiness_check, execute_reset_target_sequence, execute_disable_source_access,
  execute_validate_migration_status, execute_disable_subscription, execute_delete_subscription,
  execute_delete_publication,
}

-- The steps of a migration: each state's successor, and the two states that may ask for a retry.
infix 40 ◌⟶◌
pub data ◌⟶◌ : State → State → Type 0 where
  begin : initial_state ⟶ validate_connection_state
  connected : validate_connection_state ⟶ create_publication_state
  published : create_publication_state ⟶ copy_schema_state
  copied : copy_schema_state ⟶ create_subscription_state
  subscribed : create_subscription_state ⟶ enable_subscription_state
  enabled : enable_subscription_state ⟶ cut_over_readiness_check_state
  caught_up : cut_over_readiness_check_state ⟶ reset_target_sequence_state
  behind : cut_over_readiness_check_state ⟶ retry_state
  reset : reset_target_sequence_state ⟶ reroute_target_secret_state
  rerouted : reroute_target_secret_state ⟶ wait_to_disable_source_state
  waited : wait_to_disable_source_state ⟶ disable_source_access_state
  cut_off : disable_source_access_state ⟶ validate_migration_status_state
  counted : validate_migration_status_state ⟶ disable_subscription_state
  missing : validate_migration_status_state ⟶ retry_state
  disabled : disable_subscription_state ⟶ delete_subscription_state
  dropped : delete_subscription_state ⟶ delete_publication_state
  finished : delete_publication_state ⟶ completed_state

moved : {s t : State} → ok (some s) ≡ ok (some t) → s ≡ t
moved h = cc

stays : {t : State} → ok none ≢ ok (some t)
stays h = cc

module _ {W : Type 0} (db : Databases W) (config : Config) where
  begins :
      (w : W) (t : State)
      → (execute_initial db config w).0 ≡ ok (some t)
      → t ≡ validate_connection_state
  unfolding execute_initial
  begins w t h = ground arith

  validates :
      (w : W) (t : State)
      → (execute_validate_connection db config w).0 ≡ ok (some t)
      → t ≡ create_publication_state
  unfolding execute_validate_connection
  validates w t h = ground arith

  publishes :
      (w : W) (t : State)
      → (execute_create_publication db config w).0 ≡ ok (some t)
      → t ≡ copy_schema_state
  unfolding execute_create_publication
  publishes w t h = ground arith

  copies :
      (w : W) (t : State)
      → (execute_copy_schema db config w).0 ≡ ok (some t)
      → t ≡ create_subscription_state
  unfolding execute_copy_schema
  copies w t h = ground arith

  subscribes :
      (w : W) (t : State)
      → (execute_create_subscription db config w).0 ≡ ok (some t)
      → t ≡ enable_subscription_state
  unfolding execute_create_subscription
  subscribes w t h = ground arith

  enables :
      (w : W) (t : State)
      → (execute_enable_subscription db config w).0 ≡ ok (some t)
      → t ≡ cut_over_readiness_check_state
  unfolding execute_enable_subscription
  enables w t h = ground arith

  resets :
      (w : W) (t : State)
      → (execute_reset_target_sequence db config w).0 ≡ ok (some t)
      → t ≡ reroute_target_secret_state
  unfolding execute_reset_target_sequence
  resets w t h = ground arith

  cuts_off :
      (w : W) (t : State)
      → (execute_disable_source_access db config w).0 ≡ ok (some t)
      → t ≡ validate_migration_status_state
  unfolding execute_disable_source_access
  cuts_off w t h = ground arith

  disables :
      (w : W) (t : State)
      → (execute_disable_subscription db config w).0 ≡ ok (some t)
      → t ≡ delete_subscription_state
  unfolding execute_disable_subscription
  disables w t h = ground arith

  drops :
      (w : W) (t : State)
      → (execute_delete_subscription db config w).0 ≡ ok (some t)
      → t ≡ delete_publication_state
  unfolding execute_delete_subscription
  drops w t h = ground arith

  finishes :
      (w : W) (t : State)
      → (execute_delete_publication db config w).0 ≡ ok (some t)
      → t ≡ completed_state
  unfolding execute_delete_publication
  finishes w t h = ground arith

  catches_up :
      (w : W) (t : State)
      → (execute_cut_over_readiness_check db config w).0 ≡ ok (some t)
      → (t ≡ reset_target_sequence_state) ⊎ (t ≡ retry_state)
  unfolding execute_cut_over_readiness_check
  catches_up w t h = ground arith

  counts :
      (w : W) (t : State)
      → (execute_validate_migration_status db config w).0 ≡ ok (some t)
      → (t ≡ disable_subscription_state) ⊎ (t ≡ retry_state)
  unfolding execute_validate_migration_status
  counts w t h = ground arith

  -- An execution that succeeds follows an arrow of the order.
  pub execute-⟶ : (s t : State) (w : W) → (execute db config s w).0 ≡ ok (some t) → s ⟶ t
  unfolding execute
  execute-⟶ initial_state t w h = subst (λ u. initial_state ⟶ u) (sym (begins w t h)) begin
  execute-⟶ validate_connection_state t w h =
      subst (λ u. validate_connection_state ⟶ u) (sym (validates w t h)) connected
  execute-⟶ create_publication_state t w h =
      subst (λ u. create_publication_state ⟶ u) (sym (publishes w t h)) published
  execute-⟶ copy_schema_state t w h = subst (λ u. copy_schema_state ⟶ u) (sym (copies w t h)) copied
  execute-⟶ create_subscription_state t w h =
      subst (λ u. create_subscription_state ⟶ u) (sym (subscribes w t h)) subscribed
  execute-⟶ enable_subscription_state t w h =
      subst (λ u. enable_subscription_state ⟶ u) (sym (enables w t h)) enabled
  execute-⟶ reset_target_sequence_state t w h =
      subst (λ u. reset_target_sequence_state ⟶ u) (sym (resets w t h)) reset
  execute-⟶ disable_source_access_state t w h =
      subst (λ u. disable_source_access_state ⟶ u) (sym (cuts_off w t h)) cut_off
  execute-⟶ disable_subscription_state t w h =
      subst (λ u. disable_subscription_state ⟶ u) (sym (disables w t h)) disabled
  execute-⟶ delete_subscription_state t w h =
      subst (λ u. delete_subscription_state ⟶ u) (sym (drops w t h)) dropped
  execute-⟶ delete_publication_state t w h =
      subst (λ u. delete_publication_state ⟶ u) (sym (finishes w t h)) finished
  execute-⟶ cut_over_readiness_check_state t w h = elim (catches_up w t h) [
    | inl e ↦ subst (λ u. cut_over_readiness_check_state ⟶ u) (sym e) caught_up
    | inr e ↦ subst (λ u. cut_over_readiness_check_state ⟶ u) (sym e) behind
  ]
  execute-⟶ validate_migration_status_state t w h = elim (counts w t h) [
    | inl e ↦ subst (λ u. validate_migration_status_state ⟶ u) (sym e) counted
    | inr e ↦ subst (λ u. validate_migration_status_state ⟶ u) (sym e) missing
  ]
  execute-⟶ reroute_target_secret_state t w h =
      subst (λ u. reroute_target_secret_state ⟶ u) (moved h) rerouted
  execute-⟶ wait_to_disable_source_state t w h =
      subst (λ u. wait_to_disable_source_state ⟶ u) (moved h) waited
  execute-⟶ completed_state t w h = absurd (stays h)
  execute-⟶ retry_state t w h = absurd (stays h)

-- Every arrow leads to a state with a greater number, so a migration makes at most seventeen steps.
pub ⟶-number : {s t : State} → s ⟶ t → number (id s) < number (id t)
unfolding number id
⟶-number begin = omega arith
⟶-number _ = omega arith
