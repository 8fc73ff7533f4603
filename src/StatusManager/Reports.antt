-- ===== src/StatusManager/Reports.antt =====
-- What a claim reports after the handlers of pkg/databaseclaim/claimstatus.go.
use db_controller.Prelude.{
  ℕ, ℤ, String, false, ◌≡◌, refl, sym, ◌∙◌, ap, ◌≢◌, ◌<>◌, inl, inr, Option, none, some, List, [],
  ◌∷◌, arith, ◌==◌, eq_iff, ◌&&◌, Bool-cases, eq_refl, subst,
}
use db_controller.Api.Error.{Err, ok, is_do_not_update_status}
use db_controller.Api.Claim.{Condition, DatabaseClaim, ready}
use db_controller.Api.Condition.{
  error_text, condition_ready, condition_sync, reconcile_error_condition,
  reconcile_success_condition, database_ready_condition, no_db_version_status,
}
use db_controller.Cluster.{Cluster, Context}
use db_controller.StatusManager.{
  Outcome, set_condition, remove_condition, set_error, store_error, clear_error,
  success_and_update_condition, set_status_condition, update_status,
  set_condition_and_update_status, remove_condition_by_type, active_db_success_reconcile,
}
use db_controller.StatusManager.Conditions.{find_condition, find-put_condition, timed}

-- The claim shows a condition of a type, with a status and a message.
abbrev pub Shows : String → String → String → DatabaseClaim → Type 0
Shows type status text claim =
    (c : Condition) × (find_condition type claim.status.conditions ≡ some c)
    × (c.status ≡ status)
    × (c.message ≡ text)

timed-same :
    (c : Condition) (o : Option Condition)
    → ((timed c o).status ≡ c.status) × ((timed c o).message ≡ c.message)
timed-same c none = (refl, refl)
timed-same c (some d) = elim (Bool-cases (c.status == d.status)) [
  | inl p ↦ rw p (refl, refl)
  | inr p ↦ rw p (refl, refl)
]

-- The condition that is set is shown.
pub set_condition-Shows :
    (time : ℕ) (c : Condition) (claim : DatabaseClaim)
    → Shows c.type c.status c.message (set_condition time c claim)
unfolding set_condition
set_condition-Shows time c claim =
    let stamped : Condition = record c {
      last_transition_time = time;
      observed_generation = claim.generation;
    } in
    let found = find-put_condition stamped c.type claim.status.conditions in
    let (p, q) = timed-same stamped (find_condition c.type claim.status.conditions) in
    (
      timed stamped (find_condition c.type claim.status.conditions),
      ground (arith, eq_refl c.type),
      p,
      q,
    )

-- One of another type stays.
pub set_condition-keeps :
    (time : ℕ) (c : Condition) (type status text : String) (claim : DatabaseClaim)
    → (c.type == type) ≡ false
    → Shows type status text claim
    → Shows type status text (set_condition time c claim)
unfolding set_condition
set_condition-keeps time c type status text claim h (d, found, p, q) =
    let f =
      find-put_condition
        (record c { last_transition_time = time; observed_generation = claim.generation }) type
        claim.status.conditions in
    (d, ground arith, p, q)

module _ {W : Type 0} (cluster : Cluster W) where
  open cluster use {now, update_claim_status}

  store_error-fails : (e : Err) (s : Context W) (o : Outcome) → (store_error cluster e s).0 ≢ ok o
  unfolding store_error
  store_error-fails e s o h = ground arith

  store_error-claim : (e : Err) (s : Context W) → (store_error cluster e s).1.claim ≡ s.claim
  unfolding store_error
  store_error-claim e s = ground arith

  set_error-fails :
      (e : Err) (s : Context W) (o : Outcome)
      → is_do_not_update_status e ≡ false
      → (set_error cluster e s).0 ≢ ok o
  unfolding set_error set_condition_and_update_status update_status set_status_condition
  set_error-fails e s o h k = grind (arith, store_error-fails)

  set_error-claim :
      (e : Err) (s : Context W)
      → is_do_not_update_status e ≡ false
      → (set_error cluster e s).1.claim
        ≡ set_condition (now s.world) (reconcile_error_condition e) s.claim
  unfolding set_error set_condition_and_update_status update_status set_status_condition
  set_error-claim e s h = grind (arith, store_error-claim)

  -- An error that is to be shown never counts as success, and the claim in memory shows it.
  pub set_error-Shows :
      (e : Err) (s : Context W) (o : Outcome)
      → is_do_not_update_status e ≡ false
      → ((set_error cluster e s).0 ≢ ok o)
        × Shows condition_ready "False"
            ("Reconciliation encountered an issue: " <> error_text e)
            (set_error cluster e s).1.claim
  set_error-Shows e s o h = (
    set_error-fails e s o h,
    subst (Shows condition_ready "False" ("Reconciliation encountered an issue: " <> error_text e))
        (sym (set_error-claim e s h))
        (set_condition-Shows (now s.world) (reconcile_error_condition e) s.claim),
  )

  -- The claim in memory is the one that the last call has stored.
  abbrev pub IsStored : Context W → Type 0
  IsStored s = (w : W) × (update_claim_status s.claim w ≡ (ok tt, s.world))

  clear_error-clears :
      (s : Context W)
      → (clear_error cluster s).0 ≡ ok tt
      → ((clear_error cluster s).1.claim.status.error ≡ "")
        × ((clear_error cluster s).1.claim.deletion_timestamp ≡ s.claim.deletion_timestamp)
  unfolding clear_error update_status
  clear_error-clears s h = ground (arith, eq_iff s.claim.status.error "")

  success-steps :
      (rotation : ℤ) (s : Context W) (o : Outcome)
      → (success_and_update_condition cluster rotation s).0 ≡ ok o
      → (clear_error cluster s).0 ≡ ok tt
  unfolding success_and_update_condition
  success-steps rotation s o h = ground arith

  abbrev success_claim : Context W → DatabaseClaim
  success_claim s =
      set_condition (now s.world) database_ready_condition
        (set_condition (now s.world) reconcile_success_condition s.claim)

  success-claim :
      (rotation : ℤ) (s s1 : Context W) (o : Outcome)
      → clear_error cluster s ≡ (ok tt, s1)
      → s1.claim.deletion_timestamp ≡ none
      → (success_and_update_condition cluster rotation s).0 ≡ ok o
      → ((success_and_update_condition cluster rotation s).1.claim ≡ success_claim s1)
        × (update_claim_status (success_claim s1) s1.world
            ≡ (ok tt, (success_and_update_condition cluster rotation s).1.world))
  unfolding success_and_update_condition set_status_condition update_status
  success-claim rotation s s1 o e d h = ground arith

  set_condition-error :
      (time : ℕ) (c : Condition) (claim : DatabaseClaim)
      → (set_condition time c claim).status.error ≡ claim.status.error
  unfolding set_condition
  set_condition-error time c claim = refl

  success_claim-Shows :
      (s : Context W)
      → Shows condition_ready "True" reconcile_success_condition.message (success_claim s)
        × Shows condition_sync "True" database_ready_condition.message (success_claim s)
  success_claim-Shows s = (
    set_condition-keeps (now s.world) database_ready_condition condition_ready "True"
        reconcile_success_condition.message _ refl
        (set_condition-Shows (now s.world) reconcile_success_condition s.claim),
    set_condition-Shows (now s.world) database_ready_condition
        (set_condition (now s.world) reconcile_success_condition s.claim),
  )

  -- When a reconciliation of a claim that is not being deleted succeeds, the claim shows that it is
  -- ready and synchronized and has no error, and the cluster has stored it so.
  pub success-Shows :
      (rotation : ℤ) (s : Context W) (o : Outcome)
      → s.claim.deletion_timestamp ≡ none
      → (success_and_update_condition cluster rotation s).0 ≡ ok o
      → let s' = (success_and_update_condition cluster rotation s).1 in
        Shows condition_ready "True" reconcile_success_condition.message s'.claim
        × Shows condition_sync "True" database_ready_condition.message s'.claim
        × (s'.claim.status.error ≡ "")
        × IsStored s'
  success-Shows rotation s o d h =
      let s1 = (clear_error cluster s).1 in
      let r = success-steps rotation s o h in
      let (cleared, alive) = clear_error-clears s r in
      let (same, stored) = success-claim rotation s s1 o (ground (arith, r)) (alive ∙ d) h in
      let (shows, synced) = success_claim-Shows s1 in
      (
        subst (Shows condition_ready "True" reconcile_success_condition.message) (sym same) shows,
        subst (Shows condition_sync "True" database_ready_condition.message) (sym same) synced,
        ap (λ c. c.status.error) same
            ∙ set_condition-error _ _ _
            ∙ set_condition-error _ _ _
            ∙ cleared,
        (s1.world, ground (arith, same, stored)),
      )

  find-remove_condition :
      (type : String) (ds : List Condition) → find_condition type (remove_condition type ds) ≡ none
  unfolding find_condition remove_condition
  find-remove_condition type [] = refl
  find-remove_condition type (d ∷ ds) = ground (arith, find-remove_condition type ds)

  -- After the success of a claim that names a version, or whose database is not ready, the mark
  -- that a version is missing is gone from the claim in memory, but the world is that of the
  -- success itself: no call has stored the claim without the mark.
  pub removed_mark_unstored :
      (rotation : ℤ) (s : Context W) (o : Outcome)
      → let s' = (success_and_update_condition cluster rotation s).1 in
        let after = (active_db_success_reconcile cluster rotation s).1 in
        (s'.claim.status.active_db.db_state == ready && s'.claim.spec.db_version == "") ≡ false
        → (active_db_success_reconcile cluster rotation s).0 ≡ ok o
        → (find_condition no_db_version_status.type after.claim.status.conditions ≡ none)
          × (after.world ≡ s'.world)
  unfolding active_db_success_reconcile remove_condition_by_type
  removed_mark_unstored rotation s o v h = grind (arith, find-remove_condition)
