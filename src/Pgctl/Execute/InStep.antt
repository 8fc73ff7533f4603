-- ===== src/Pgctl/Execute/InStep.antt =====
-- The two checks of pkg/pgctl/pgctl.go that a migration may have to repeat, and its other steps.
use db_controller.Prelude.{
  ℕ, ◌<◌, String, Bool, true, false, List, All, ◌≡◌, ◌⊎◌, inl, inr, refl, sym, subst, some, arith,
}
use db_controller.Api.Error.{ok}
use db_controller.Pgctl.Execute.{
  compare_counts, default_pub_name, default_sub_name, execute, execute_cut_over_readiness_check,
  execute_validate_migration_status,
}
use db_controller.Pgctl.Execute.Counts.{
  IsCounted, IsReached, compare_counts-IsCounted, compare_counts-IsReached,
  IsReached-compare_counts,
}
use db_controller.Pgctl.Execute.Progress.{◌⟶◌, execute-⟶}
use db_controller.Pgctl.Postgres.{Config, Databases}
use db_controller.Pgctl.State.{
  State, cut_over_readiness_check_state, disable_subscription_state, reset_target_sequence_state,
  retry_state, validate_migration_status_state,
}

-- the two states that have a choice
abbrev checks : State → Bool
checks cut_over_readiness_check_state = true
checks validate_migration_status_state = true
checks _ = false

module _ {W : Type 0} (db : Databases W) (config : Config) where
  -- The source's slot for the copy of a table is in use, or it is free, and some relation of the
  -- target's subscription is not ready.
  abbrev pub IsBehind : W → Type 0
  IsBehind w =
      (db.slot_active config.source_db_admin_dsn default_pub_name w ≡ ok true)
      ⊎ ((db.slot_active config.source_db_admin_dsn default_pub_name w ≡ ok false)
          × ((n : ℕ) × (db.unready_relations config.target_db_admin_dsn default_sub_name w ≡ ok n)
              × (0 < n)))

  -- The steps of a migration from a world, each with what the databases say where it has a choice.
  pub data Follows (w : W) : State → State → Type 0 where
    onward : {s t : State} → checks s ≡ false → s ⟶ t → Follows w s t
    caught_up :
        db.slot_active config.source_db_admin_dsn default_pub_name w ≡ ok false
        → db.unready_relations config.target_db_admin_dsn default_sub_name w ≡ ok 0
        → Follows w cut_over_readiness_check_state reset_target_sequence_state
    behind : IsBehind w → Follows w cut_over_readiness_check_state retry_state
    counted :
        (rows : List (String × ℕ))
        → db.table_counts config.source_db_user_dsn w ≡ ok rows
        → All (IsReached db config w) rows
        → Follows w validate_migration_status_state disable_subscription_state
    missing :
        (rows : List (String × ℕ))
        → db.table_counts config.source_db_user_dsn w ≡ ok rows
        → All (IsCounted db config w) rows
        → ¬ All (IsReached db config w) rows
        → Follows w validate_migration_status_state retry_state

  cuts_over :
      (w : W) (t : State)
      → (execute_cut_over_readiness_check db config w).0 ≡ ok (some t)
      → ((t ≡ reset_target_sequence_state)
          × (db.slot_active config.source_db_admin_dsn default_pub_name w ≡ ok false)
          × (db.unready_relations config.target_db_admin_dsn default_sub_name w ≡ ok 0))
        ⊎ ((t ≡ retry_state) × IsBehind w)
  unfolding execute_cut_over_readiness_check
  cuts_over w t h = ground (arith, h)

  compares :
      (w : W) (t : State)
      → (execute_validate_migration_status db config w).0 ≡ ok (some t)
      → (rows : List (String × ℕ)) × (db.table_counts config.source_db_user_dsn w ≡ ok rows)
        × (((t ≡ disable_subscription_state) × ((compare_counts db config true rows w).0 ≡ ok true))
            ⊎ ((t ≡ retry_state) × ((compare_counts db config true rows w).0 ≡ ok false)))
  unfolding execute_validate_migration_status
  compares w t h = ground (arith, h)

  -- An execution that succeeds follows an arrow of the order. From the check for the cut-over it goes
  -- on only where the slot of the source is free and every relation of the target is ready, and to a
  -- retry only where that is not so; from the check of the counts it goes on only where every table
  -- of the source is in the target with no fewer rows, and to a retry only where the target answers
  -- for every table, and has fewer rows of some.
  pub execute-Follows :
      (s t : State) (w : W) → (execute db config s w).0 ≡ ok (some t) → Follows w s t
  unfolding execute
  execute-Follows cut_over_readiness_check_state t w h = elim (cuts_over w t h) [
    | inl (e, a, b) ↦
        subst (λ u. Follows w cut_over_readiness_check_state u) (sym e) (caught_up a b)
    | inr (e, a) ↦ subst (λ u. Follows w cut_over_readiness_check_state u) (sym e) (behind a)
  ]
  execute-Follows validate_migration_status_state t w h =
      let (rows, found, ways) = compares w t h in
      elim ways [
        | inl (e, a) ↦
            subst (λ u. Follows w validate_migration_status_state u) (sym e)
              (counted rows found (compare_counts-IsReached db config w true rows a).1)
        | inr (e, a) ↦
            subst (λ u. Follows w validate_migration_status_state u) (sym e)
              (missing rows found (compare_counts-IsCounted db config w true rows false a)
                (λ all. let f = IsReached-compare_counts db config w rows all in cc))
      ]
  execute-Follows s t w h = onward refl (execute-⟶ db config s t w h)
