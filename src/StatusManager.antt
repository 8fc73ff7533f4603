-- ===== src/StatusManager.antt =====
-- pkg/databaseclaim/claimstatus.go: the status of a claim, in memory and in the cluster.
pub mod Conditions
pub mod Reports
use db_controller.Prelude.{
  ℕ, ℤ, pos, String, Bool, true, false, not, ◌&&◌, Option, none, some, List, [], ◌∷◌, ◌==◌, is_some,
  get_or, if◌then◌else◌,
}
use db_controller.Api.Error.{Err, Result, ok, err, panic, managed, is_do_not_update_status}
use db_controller.Api.Connection.{ConnectionInfo, no_connection}
use db_controller.Api.Claim.{
  Condition, Status, ClaimStatus, DatabaseClaim, postgres, ready, post_migration_in_progress,
}
use db_controller.Api.Condition.{
  error_text, migrating_condition, database_ready_condition, reconcile_error_condition,
  reconcile_success_condition, no_db_version_status,
}
use db_controller.Cluster.{Cluster, Context, Handler, call}
use db_controller.Exec.{pure, fail, modify, attempt, ◌>>=◌, ◌>>◌}
use db_controller.HostParams.{HostParams}
use db_controller.Pgctl.State.{migration_in_progress, enum_string}
use db_controller.RequestInfo.{RequestInfo}

-- reconcile.Result; the time to wait is in seconds
pub record Outcome : Type 0 where
  pub requeue : Bool
  pub requeue_after : ℤ

abbrev pub no_requeue : Outcome
no_requeue = record { requeue = false; requeue_after = pos 0 }

abbrev pub requeue_now : Outcome
requeue_now = record { requeue = true; requeue_after = pos 0 }

abbrev pub requeue_in : ℤ → Outcome
requeue_in n = record { requeue = false; requeue_after = n }

-- The loop of SetStatusCondition, for a condition with its time set: the first condition of the
-- same type is replaced, and keeps its time unless its status changes.
unfoldable pub put_condition : Condition → List Condition → List Condition
put_condition c [] = c ∷ []
put_condition c (d ∷ ds) =
    if d.type == c.type
    then (if c.status == d.status
        then record c { last_transition_time = d.last_transition_time }
        else c)
      ∷ ds
    else d ∷ put_condition c ds

-- the loop of RemoveConditionByType
unfoldable pub remove_condition : String → List Condition → List Condition
remove_condition type [] = []
remove_condition type (d ∷ ds) =
    let rest = remove_condition type ds in if d.type == type then rest else d ∷ rest

abbrev pub with_status : (ClaimStatus → ClaimStatus) → DatabaseClaim → DatabaseClaim
with_status f claim = record claim { status = f claim.status }

-- SetStatusCondition on a claim, at a time
unfoldable pub set_condition : ℕ → Condition → DatabaseClaim → DatabaseClaim
unfolding put_condition
set_condition time c = λ claim.
    with_status
      (λ s. record s {
        conditions =
            put_condition
              (record c { last_transition_time = time; observed_generation = claim.generation })
              s.conditions;
      })
      claim

-- UpdateClusterStatus
unfoldable pub update_cluster_status : HostParams → Status → Status
update_cluster_status p status = record status {
  db_version = p.db_version;
  db_type = p.engine;
  shape = p.shape;
  min_storage_gb = p.min_storage_gb;
  max_storage_gb = if p.engine == postgres then p.max_storage_gb else status.max_storage_gb;
}

abbrev pub connection_or_empty : Option ConnectionInfo → ConnectionInfo
connection_or_empty c = get_or c no_connection

-- UpdateDBStatus, at a time
unfoldable pub update_db_status : ℕ → String → Status → Status
update_db_status time db_name status =
    let conn = connection_or_empty status.connection_info in
    record status {
      db_created_at = some (get_or status.db_created_at time);
      connection_info =
          some (if conn.database_name == "" then record conn { database_name = db_name } else conn);
      connection_info_updated_at =
          if conn.database_name == "" then some time else status.connection_info_updated_at;
    }

-- UpdateHostPortStatus
unfoldable pub update_host_port_status : ℕ → String → String → String → Status → Status
update_host_port_status time host port ssl_mode status = record status {
  connection_info = some (record (connection_or_empty status.connection_info) {
    host = host;
    port = port;
    ssl_mode = ssl_mode;
  });
  connection_info_updated_at = some time;
}

-- UpdateUserStatus, on the status
unfoldable pub update_user_status : ℕ → String → Status → Status
update_user_status time user_name status = record status {
  connection_info =
      some (record (connection_or_empty status.connection_info) { username = user_name });
  user_updated_at = some time;
  connection_info_updated_at = some time;
}

module _ {W : Type 0} (cluster : Cluster W) where
  open cluster use {now, get_claim, update_claim_status}

  -- UpdateStatus
  unfoldable pub update_status : Handler W (Unit {0})
  update_status s = call (update_claim_status s.claim) s

  -- SetStatusCondition
  unfoldable pub set_status_condition : Condition → Handler W (Unit {0})
  unfolding set_condition
  set_status_condition c = modify (λ s. record s { claim = set_condition (now s.world) c s.claim })

  unfoldable pub set_condition_and_update_status : Condition → Handler W (Unit {0})
  unfolding update_status set_status_condition
  set_condition_and_update_status c = do set_status_condition c; update_status

  -- wrappedErr
  abbrev as_managed : Err → Err
  as_managed (managed e) = managed e
  as_managed e = managed e

  -- the claim is fetched anew and stored with the error; a failure of either is only logged
  unfoldable pub store_error : Err → Handler W Outcome
  store_error e s =
      attempt (call (λ w. (get_claim s.claim.namespace s.claim.name w, w))) (λ _. fail e)
        (λ refreshed.
          attempt
            (call (
              update_claim_status
                (with_status (λ st. record st { error = error_text e }) refreshed)))
            (λ _. fail e) (λ _. fail e))
        s

  -- SetError
  unfoldable pub set_error : Err → Handler W Outcome
  unfolding set_condition_and_update_status store_error
  set_error in_err = if is_do_not_update_status in_err then pure no_requeue else do
    set_condition_and_update_status (reconcile_error_condition in_err)
    store_error (as_managed in_err)

  unfoldable pub clear_error : Handler W (Unit {0})
  unfolding update_status
  clear_error s =
      if s.claim.status.error == ""
      then (ok tt, s)
      else update_status (record s { claim = with_status (λ st. record st { error = "" }) s.claim })

  -- the last part of SuccessAndUpdateCondition
  abbrev requeue_after_success : ℤ → Handler W Outcome
  requeue_after_success rotation s = (
    ok (
        if s.claim.status.old_db.db_state == post_migration_in_progress
        then requeue_in (pos 60)
        else requeue_in rotation),
    s,
  )

  -- SuccessAndUpdateCondition; `rotation` is the manager's passwordRotationTime
  unfoldable pub success_and_update_condition : ℤ → Handler W Outcome
  unfolding clear_error set_status_condition update_status
  success_and_update_condition rotation = do
    clear_error
    deleting ← (λ s. (ok (is_some s.claim.deletion_timestamp), s))
    if deleting then pure requeue_now else do
      set_status_condition reconcile_success_condition
      set_status_condition database_ready_condition
      update_status
      requeue_after_success rotation

  unfoldable pub migration_in_progress_status : Handler W Outcome
  unfolding enum_string set_status_condition update_status
  migration_in_progress_status = do
    modify (λ s. record s {
      claim =
          with_status (λ st. record st { migration_state = enum_string migration_in_progress })
            s.claim;
    })
    set_status_condition migrating_condition
    update_status
    pure requeue_now

  -- RemoveConditionByType
  unfoldable pub remove_condition_by_type : String → Handler W (Unit {0})
  remove_condition_by_type type = modify (λ s. record s {
    claim =
        with_status (λ st. record st { conditions = remove_condition type st.conditions }) s.claim;
  })

  unfoldable pub active_db_success_reconcile : ℤ → Handler W Outcome
  unfolding success_and_update_condition set_condition_and_update_status remove_condition_by_type
  active_db_success_reconcile rotation = do
    result ← success_and_update_condition rotation
    unversioned ←
        (λ s. (ok (s.claim.status.active_db.db_state == ready && s.claim.spec.db_version == ""), s))
    (if unversioned
        then set_condition_and_update_status no_db_version_status
        else remove_condition_by_type no_db_version_status.type)
    pure result
