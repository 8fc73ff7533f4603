-- ===== src/Migration/Turns.antt =====
-- What a turn of the migration loop in pkg/databaseclaim/databaseclaim.go leaves behind.
use db_controller.Prelude.{ℤ, String, ◌≡◌, ◌≢◌, refl, subst, ◌∙◌, ap, Option, none, some, arith}
use db_controller.Api.Error.{Err, Result, ok, err, panic}
use db_controller.Api.Connection.{ConnectionInfo}
use db_controller.Cluster.{Cluster, Context, call}
use db_controller.Exec.{rescue}
use db_controller.Pgctl.Execute.{execute}
use db_controller.Pgctl.Execute.Progress.{◌⟶◌, execute-⟶}
use db_controller.Pgctl.Names.{get_replicator_state-state_string}
use db_controller.Pgctl.Postgres.{Config, Databases}
use db_controller.Pgctl.State as Pgctl
use db_controller.Pgctl.State.{
  State, StateEnum, id, number, state_string, get_replicator_state, completed_state, retry_state,
}
use db_controller.Migration.{Turn, again, return_error, store_state, go_on, go_on_from, take_turn}
use db_controller.Secrets.{reroute_target_secret_to}
use db_controller.StatusManager.{update_status}

module _ {W : Type 0} (cluster : Cluster W) where
  open cluster use {update_claim_status}

  -- A state that the loop goes on in is the one that was chosen, and it is in the claim as stored.
  abbrev StoredAs : State → Context W → Type 0
  StoredAs t s =
      (s.claim.status.migration_state ≡ state_string t)
      × ((w : W) × (update_claim_status s.claim w ≡ (ok tt, s.world)))

  store_state-again :
      (next t : State) (turn : Turn) (s : Context W)
      → (store_state cluster next turn s).0 ≡ ok (again t)
      → (turn ≡ again t) × StoredAs next (store_state cluster next turn s).1
  unfolding store_state update_status
  store_state-again next t turn s h = (ground arith, (ground arith, (s.world, ground arith)))

  module _ (db : Databases W) (config : Config) (query_escape : String → String) (rotation : ℤ)
      (source_app_dsn : String) (target_app_conn : ConnectionInfo) where
    abbrev GoesOn : State → State → StateEnum → Context W → Type 0
    GoesOn next t e s = (next ≡ t) × StoredAs t s × (e ≢ Pgctl.completed) × (e ≢ Pgctl.retry)

    stores :
        (next t : State) (e : StateEnum) (s : Context W)
        → e ≢ Pgctl.completed
        → e ≢ Pgctl.retry
        → (store_state cluster next (again next) s).0 ≡ ok (again t)
        → GoesOn next t e (store_state cluster next (again next) s).1
    stores next t e s c r h =
        let (same, stored) = store_state-again next t (again next) s h in
        let eq : next ≡ t = cc in
        (eq, subst (λ u. StoredAs u (store_state cluster next (again next) s).1) eq stored, c, r)

    return_error-stops :
        (e : Err) (s : Context W) (t : State) → (return_error cluster e s).0 ≢ ok (again t)
    return_error-stops e s t h = ground arith

    rerouted :
        (next t : State) (r : Result (Unit {0})) (s : Context W)
        → let turn =
            rescue r s (return_error cluster) (λ _. store_state cluster next (again next)) in
          turn.0 ≡ ok (again t) → GoesOn next t Pgctl.reroute_target_secret turn.1
    rerouted next t (ok _) s h = stores next t _ s (λ e. cc) (λ e. cc) h
    rerouted next t (err x) s h = absurd (return_error-stops x s t h)
    rerouted next t panic s h = cc

    go_on-again :
        (next t : State) (e : StateEnum) (s : Context W)
        → (go_on cluster db config query_escape rotation source_app_dsn target_app_conn next e s).0
          ≡ ok (again t)
        → GoesOn next t e
            (go_on cluster db config query_escape rotation source_app_dsn target_app_conn next e
              s).1
    unfolding go_on
    go_on-again next t Pgctl.completed s h = absurd (ground arith)
    go_on-again next t Pgctl.retry s h = cc
    go_on-again next t Pgctl.wait_to_disable_source s h =
        let (e, stored) = store_state-again next t _ s h in cc
    go_on-again next t Pgctl.reroute_target_secret s h =
        let m =
          call
            (reroute_target_secret_to cluster query_escape source_app_dsn target_app_conn
              config.cloud s.claim)
            s in
        rerouted next t m.0 m.1 h
    go_on-again next t _ s h = stores next t _ s (λ e. cc) (λ e. cc) h

    from_turn :
        (s t : State) (r : Result (Option State)) (c : Context W)
        → ((u : State) → r ≡ ok (some u) → s ⟶ u)
        → let turn =
            rescue r c
              (return_error cluster)
              (go_on_from cluster db config query_escape rotation source_app_dsn target_app_conn) in
          turn.0 ≡ ok (again t)
          → (s ⟶ t) × StoredAs t turn.1 × (id t ≢ Pgctl.completed) × (id t ≢ Pgctl.retry)
    unfolding go_on_from
    from_turn s t (ok (some u)) c f h =
        let (e, stored, completed, retry) = go_on-again u t (id u) c h in
        (
          subst (λ v. s ⟶ v) e (f u refl),
          stored,
          subst (λ v. id v ≢ Pgctl.completed) e completed,
          subst (λ v. id v ≢ Pgctl.retry) e retry,
        )
    from_turn s t (ok none) c f h = cc
    from_turn s t (err x) c f h = absurd (return_error-stops x c t h)
    from_turn s t panic c f h = cc

    -- A turn of the loop that goes on has followed the order of the states, to a state that is
    -- neither of the ends; the cluster holds the claim with that state's name, and a controller that
    -- is restarted from the name resumes the very state.
    pub take_turn-again :
        (s t : State) (c : Context W)
        → let turn =
            take_turn cluster db config query_escape rotation source_app_dsn target_app_conn s c in
          turn.0 ≡ ok (again t)
          → (s ⟶ t)
            × ((t ≢ completed_state) × (t ≢ retry_state))
            × ((w : W) × (update_claim_status turn.1.claim w ≡ (ok tt, turn.1.world)))
            × (get_replicator_state turn.1.claim.status.migration_state ≡ ok t)
    unfolding take_turn
    take_turn-again s t c h =
        let m = call (execute db config s) c in
        let (arrow, stored, completed, retry) =
          from_turn s t m.0 m.1 (λ u e. execute-⟶ db config s u c.world e) h in
        let not_retry : t ≢ retry_state = λ e. retry (ap id e) in
        (
          arrow,
          (λ e. completed (ap id e), not_retry),
          stored.1,
          ap get_replicator_state stored.0 ∙ get_replicator_state-state_string t not_retry,
        )
