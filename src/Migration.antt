-- ===== src/Migration.antt =====
-- pkg/databaseclaim/databaseclaim.go: the loop of reconcileMigrationInProgress, which executes a
-- migration state by state, and the switch to the new database behind it.
pub mod Turns
pub mod Fuel
pub mod Switch
pub mod Begin
use db_controller.Prelude.{
  ℕ, zero, suc, ℤ, pos, String, Bool, true, false, not, Option, none, some, List, [], ◌∷◌, ◌==◌,
  ◌<>◌, has_suffix, if◌then◌else◌,
}
use db_controller.Api.Error.{Err, Result, ok, err, panic, is_not_found}
use db_controller.Api.Connection.{ConnectionInfo, no_connection}
use db_controller.Api.Claim.{
  DatabaseClaim, Status, StatusForOldDb, no_status, no_old_db, ready, using_existing_db,
  post_migration_in_progress,
}
use db_controller.Api.RoleClaim.{DbRoleClaim, no_role_status}
use db_controller.Cluster.{Cluster, Context, Handler, call}
use db_controller.Exec.{Exec, pure, fail, crash, ask, modify, attempt, ◌>>=◌, ◌>>◌}
use db_controller.Pgctl.Execute.{execute}
use db_controller.Pgctl.Postgres.{Config, Databases}
use db_controller.Pgctl.State as Pgctl
use db_controller.Pgctl.State.{State, StateEnum, id, state_string, enum_string}
use db_controller.Secrets.{reroute_target_secret_to, delete_temp_secret}
use db_controller.StatusManager.{
  Outcome, requeue_in, with_status, update_status, set_error, success_and_update_condition,
}

-- What a turn of the loop ends in: it goes on in a state, it is left by `break`, or the handler
-- returns. `out_of_fuel` is the model's.
pub data Turn : Type 0 where
  again : State → Turn
  left : Turn
  returned : Outcome → Turn
  out_of_fuel : Turn

-- A role claim that is copied already, and the copy of another.
abbrev pub is_copy : DatabaseClaim → DbRoleClaim → Bool
is_copy claim r = has_suffix r.name ("-" <> claim.name)

unfoldable pub copy_of : DatabaseClaim → DbRoleClaim → DbRoleClaim
copy_of claim r = record r {
  name = r.name <> ("-" <> claim.name);
  spec = record (r.spec) {
    secret_name = r.spec.secret_name <> ("-" <> claim.name);
    source_database_claim = record (r.spec.source_database_claim) { name = claim.name };
  };
  status = no_role_status;
}

-- MakeDeepCopyToOldDB, into `v1.StatusForOldDB{}`
unfoldable pub make_deep_copy_to_old_db : Status → StatusForOldDb
make_deep_copy_to_old_db from = record no_old_db {
  connection_info = from.connection_info;
  db_version = from.db_version;
  shape = from.shape;
  db_type = from.db_type;
}

-- the claim behind the loop, at a time
unfoldable pub switch_to_new_db : ℕ → DatabaseClaim → DatabaseClaim
unfolding enum_string make_deep_copy_to_old_db
switch_to_new_db time = with_status (λ s. record s {
  migration_state = enum_string Pgctl.completed;
  old_db =
      if s.active_db.db_state == using_existing_db
      then s.old_db
      else record (make_deep_copy_to_old_db s.active_db) {
        db_state = post_migration_in_progress;
        post_migration_action_started_at = some time;
      };
  active_db = record (s.new_db) { db_state = ready };
  new_db = record no_status { connection_info = some no_connection };
})

module _ {W : Type 0} (cluster : Cluster W) where
  open cluster use {now, list_role_claims, get_role_claim, create_role_claim}

  -- the decision on one role claim, by what `Get` says of its copy
  copy_missing : Result DbRoleClaim → DatabaseClaim → DbRoleClaim → Exec W (Unit {0})
  unfolding copy_of
  copy_missing (ok _) claim r = pure tt
  copy_missing (err e) claim r =
      if is_not_found e then create_role_claim (copy_of claim r) else pure tt
  copy_missing panic claim r = crash

  unfoldable pub copy_role_claim : DatabaseClaim → DbRoleClaim → Exec W (Unit {0})
  unfolding copy_missing
  copy_role_claim claim r w =
      if is_copy claim r
      then (ok tt, w)
      else copy_missing (get_role_claim r.namespace (r.name <> ("-" <> claim.name)) w) claim r w

  unfoldable pub copy_each : DatabaseClaim → List DbRoleClaim → Exec W (Unit {0})
  unfolding copy_role_claim
  copy_each claim [] = pure tt
  copy_each claim (r ∷ rs) = copy_role_claim claim r >> copy_each claim rs

  unfoldable pub copy_role_claims : Handler W (Unit {0})
  unfolding copy_each
  copy_role_claims s = call (ask (list_role_claims s.claim.namespace) >>= copy_each s.claim) s

  abbrev pub return_error : Err → Handler W Turn
  return_error e = set_error cluster e >>= λ o. pure (returned o)

  -- the state is stored in the claim before the loop goes on
  unfoldable pub store_state : State → Turn → Handler W Turn
  unfolding state_string update_status set_error
  store_state next turn =
      modify (λ s. record s {
        claim = with_status (λ st. record st { migration_state = state_string next }) s.claim;
      })
      >> attempt (update_status cluster) return_error (λ _. pure turn)

  module _ (db : Databases W) (config : Config) (query_escape : String → String) (rotation : ℤ)
      (source_app_dsn : String) (target_app_conn : ConnectionInfo) where
    -- the `switch` on the next state
    unfoldable pub go_on : State → StateEnum → Handler W Turn
    unfolding copy_role_claims store_state reroute_target_secret_to set_error
    go_on next Pgctl.completed = attempt copy_role_claims return_error (λ _. pure left)
    go_on next Pgctl.retry = pure (returned (requeue_in (pos 60)))
    go_on next Pgctl.wait_to_disable_source = store_state next (returned (requeue_in (pos 60)))
    go_on next Pgctl.reroute_target_secret =
        attempt
          (λ s.
            call
              (reroute_target_secret_to cluster query_escape source_app_dsn target_app_conn
                config.cloud s.claim)
              s)
          return_error (λ _. store_state next (again next))
    go_on next _ = store_state next (again next)

    -- `next.Id()` of a nil state
    unfoldable pub go_on_from : Option State → Handler W Turn
    unfolding go_on id
    go_on_from none = crash
    go_on_from (some next) = go_on next (id next)

    unfoldable pub take_turn : State → Handler W Turn
    unfolding execute go_on_from set_error
    take_turn s = attempt (call (execute db config s)) return_error go_on_from

    abbrev pub continue_in : (State → Handler W Turn) → Turn → Handler W Turn
    continue_in loop (again t) = loop t
    continue_in loop left = pure left
    continue_in loop (returned o) = pure (returned o)
    continue_in loop out_of_fuel = pure out_of_fuel

    -- the loop, on fuel
    unfoldable pub take_turns : ℕ → State → Handler W Turn
    unfolding take_turn
    take_turns zero s = pure out_of_fuel
    take_turns (suc fuel) s = take_turn s >>= continue_in (take_turns fuel)

    -- behind the loop
    unfoldable pub complete_migration : Handler W Outcome
    unfolding switch_to_new_db update_status set_error delete_temp_secret
        success_and_update_condition
    complete_migration =
        modify (λ s. record s { claim = switch_to_new_db (now s.world) s.claim })
        >> attempt (update_status cluster) (set_error cluster) (λ _.
          (λ s. attempt (call (delete_temp_secret cluster s.claim)) (λ _. pure tt) (λ _. pure tt) s)
          >> success_and_update_condition cluster rotation)

    abbrev leave : Turn → Handler W Outcome
    leave left = complete_migration
    leave (returned o) = pure o
    leave (again t) = crash
    leave out_of_fuel = crash

    -- the loop of reconcileMigrationInProgress, from a state, and what is behind it
    unfoldable pub migrate : State → Handler W Outcome
    unfolding take_turns complete_migration
    migrate s = take_turns 18 s >>= leave
