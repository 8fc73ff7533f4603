-- ===== src/Migration/Fuel.antt =====
-- The migration loop of pkg/databaseclaim/databaseclaim.go ends.
use db_controller.Prelude.{
  ℕ, zero, suc, ◌+◌, ◌<◌, ◌≤◌, ℤ, String, ◌≡◌, ◌≢◌, refl, Option, none, some, arith,
}
use db_controller.Api.Error.{Err, Result, ok, err, panic}
use db_controller.Api.Connection.{ConnectionInfo}
use db_controller.Cluster.{Cluster, Context, call}
use db_controller.Exec.{continue, rescue}
use db_controller.Pgctl.Execute.{execute}
use db_controller.Pgctl.Execute.Progress.{⟶-number}
use db_controller.Pgctl.Postgres.{Config, Databases}
use db_controller.Pgctl.State as Pgctl
use db_controller.Pgctl.State.{State, StateEnum, id, number}
use db_controller.Secrets.{reroute_target_secret_to}
use db_controller.Migration.{
  Turn, again, left, returned, out_of_fuel, store_state, return_error, go_on, go_on_from, take_turn,
  take_turns, continue_in,
}
use db_controller.Migration.Turns.{take_turn-again}
use db_controller.StatusManager.{update_status}

module _ {W : Type 0} (cluster : Cluster W) where
  return_error-ends : (e : Err) (s : Context W) → (return_error cluster e s).0 ≢ ok out_of_fuel
  return_error-ends e s h = ground arith

  store_state-ends :
      (next : State) (turn : Turn) (s : Context W)
      → turn ≢ out_of_fuel
      → (store_state cluster next turn s).0 ≢ ok out_of_fuel
  unfolding store_state update_status
  store_state-ends next turn s f h = ground arith

  module _ (db : Databases W) (config : Config) (query_escape : String → String) (rotation : ℤ)
      (source_app_dsn : String) (target_app_conn : ConnectionInfo) where
    rerouted-ends :
        (next : State) (r : Result (Unit {0})) (s : Context W)
        → (rescue r s (return_error cluster) (λ _. store_state cluster next (again next))).0
          ≢ ok out_of_fuel
    rerouted-ends next (ok _) s = store_state-ends next (again next) s (λ e. cc)
    rerouted-ends next (err e) s = return_error-ends e s
    rerouted-ends next panic s = λ h. cc

    go_on-ends :
        (next : State) (e : StateEnum) (s : Context W)
        → (go_on cluster db config query_escape rotation source_app_dsn target_app_conn next e s).0
          ≢ ok out_of_fuel
    unfolding go_on
    go_on-ends next Pgctl.completed s = λ h. ground arith
    go_on-ends next Pgctl.retry s = λ h. cc
    go_on-ends next Pgctl.wait_to_disable_source s = store_state-ends next _ s (λ e. cc)
    go_on-ends next Pgctl.reroute_target_secret s =
        let m =
          call
            (reroute_target_secret_to cluster query_escape source_app_dsn target_app_conn
              config.cloud s.claim)
            s in
        rerouted-ends next m.0 m.1
    go_on-ends next _ s = store_state-ends next _ s (λ e. cc)

    executed-ends :
        (r : Result (Option State)) (c : Context W)
        → (rescue r c
            (return_error cluster)
            (go_on_from cluster db config query_escape rotation source_app_dsn target_app_conn)).0
          ≢ ok out_of_fuel
    unfolding go_on_from
    executed-ends (ok (some next)) c = go_on-ends next (id next) c
    executed-ends (ok none) c = λ h. cc
    executed-ends (err e) c = return_error-ends e c
    executed-ends panic c = λ h. cc

    take_turn-ends :
        (s : State) (c : Context W)
        → (take_turn cluster db config query_escape rotation source_app_dsn target_app_conn s c).0
          ≢ ok out_of_fuel
    unfolding take_turn
    take_turn-ends s c = let m = call (execute db config s) c in executed-ends m.0 m.1

    -- The loop with some fuel does not run out, and more fuel changes nothing.
    abbrev pub Suffices : ℕ → State → Context W → Type 0
    Suffices fuel s c =
        ((take_turns cluster db config query_escape rotation source_app_dsn target_app_conn fuel s
            c).0
          ≢ ok out_of_fuel)
        × (take_turns cluster db config query_escape rotation source_app_dsn target_app_conn
              (suc fuel) s c
            ≡ take_turns cluster db config query_escape rotation source_app_dsn target_app_conn fuel
                s c)

    after_turn :
        (fuel : ℕ) (r : Result Turn) (c : Context W)
        → r ≢ ok out_of_fuel
        → ((t : State) → r ≡ ok (again t) → Suffices fuel t c)
        → let loop = λ (n : ℕ). continue r c (
            continue_in cluster db config query_escape rotation source_app_dsn target_app_conn (
              take_turns cluster db config query_escape rotation source_app_dsn target_app_conn
                n)) in
          ((loop fuel).0 ≢ ok out_of_fuel) × (loop (suc fuel) ≡ loop fuel)
    after_turn fuel (ok (again t)) c ne f = f t refl
    after_turn fuel (ok left) c ne f = (λ h. cc, refl)
    after_turn fuel (ok (returned o)) c ne f = (λ h. cc, refl)
    after_turn fuel (ok out_of_fuel) c ne f = absurd (ne refl)
    after_turn fuel (err e) c ne f = (λ h. cc, refl)
    after_turn fuel panic c ne f = (λ h. cc, refl)

    number-bound : (e : StateEnum) → number e ≤ 17
    unfolding number
    number-bound e = grind arith

    -- Whatever the databases and the cluster do, the loop ends: from any state, as many turns as
    -- there are states from it on are enough, and further fuel changes neither the result nor the
    -- world.
    pub take_turns-Suffices :
        (fuel : ℕ) (s : State) (c : Context W) → 17 < number (id s) + fuel → Suffices fuel s c
    unfolding take_turns
    take_turns-Suffices zero s c h = absurd (omega (arith, number-bound (id s), h))
    take_turns-Suffices (suc fuel) s c h =
        let m =
          take_turn cluster db config query_escape rotation source_app_dsn target_app_conn s c in
        after_turn fuel m.0 m.1 (take_turn-ends s c) (λ t e.
          let step =
            take_turn-again cluster db config query_escape rotation source_app_dsn target_app_conn s
              t c e in
          take_turns-Suffices fuel t m.1 (omega (arith, ⟶-number step.0, h)))
