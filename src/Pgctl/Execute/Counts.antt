-- ===== src/Pgctl/Execute/Counts.antt =====
-- The comparison of row counts in pkg/pgctl/pgctl.go, on which the end of a migration depends.
use db_controller.Prelude.{
  ℕ, ◌≤◌, ltb, String, Bool, true, false, ◌≡◌, refl, ◌↔◌, List, [], ◌∷◌, All, some, arith,
  if◌then◌else◌,
}
use db_controller.Api.Error.{Result, ok, err, panic}
use db_controller.Exec.{Exec, continue}
use db_controller.Pgctl.Postgres.{Config, Databases}
use db_controller.Pgctl.State.{
  disable_subscription_state, retry_state, validate_migration_status_state,
}
use db_controller.Pgctl.Execute.{execute, compare_counts, execute_validate_migration_status}

module _ {W : Type 0} (db : Databases W) (config : Config) where
  -- The target answers for a table of the source, with no fewer rows.
  abbrev pub IsReached : W → String × ℕ → Type 0
  IsReached w row =
      (n : ℕ) × (db.table_count config.target_db_user_dsn row.0 w ≡ ok n) × (row.1 ≤ n)

  row-IsReached :
      (w : W) (deuce : Bool) (table : String) (n : ℕ) (rows : List (String × ℕ))
      → ((d : Bool)
          → (compare_counts db config d rows w).0 ≡ ok true
          → (d ≡ true) × All (IsReached w) rows)
      → (r : Result ℕ) → db.table_count config.target_db_user_dsn table w ≡ r
      → (continue r w (λ m. compare_counts db config (if ltb m n then false else deuce) rows)).0
        ≡ ok true
      → (deuce ≡ true) × (IsReached w (table, n) × All (IsReached w) rows)
  row-IsReached w deuce table n rows ih (ok m) e h =
      let (kept, reached) = ih _ h in (ground arith, ((m, e, ground arith), reached))
  row-IsReached w deuce table n rows ih (err x) e h = cc
  row-IsReached w deuce table n rows ih panic e h = cc

  pub compare_counts-IsReached :
      (w : W) (deuce : Bool) (rows : List (String × ℕ))
      → (compare_counts db config deuce rows w).0 ≡ ok true
      → (deuce ≡ true) × All (IsReached w) rows
  unfolding compare_counts
  compare_counts-IsReached w deuce [] h = ground arith
  compare_counts-IsReached w deuce ((table, n) ∷ rows) h =
      row-IsReached w deuce table n rows (λ d. compare_counts-IsReached w d rows) _ refl h

  pub IsReached-compare_counts :
      (w : W) (rows : List (String × ℕ))
      → All (IsReached w) rows
      → compare_counts db config true rows w ≡ (ok true, w)
  unfolding compare_counts
  IsReached-compare_counts w [] all = refl
  IsReached-compare_counts w ((table, n) ∷ rows) all =
      ground (arith, IsReached-compare_counts w rows)

  -- The target answers for a table of the source.
  abbrev pub IsCounted : W → String × ℕ → Type 0
  IsCounted w row = (n : ℕ) × (db.table_count config.target_db_user_dsn row.0 w ≡ ok n)

  row-counts :
      (w : W) (deuce : Bool) (table : String) (n : ℕ) (rows : List (String × ℕ)) (b : Bool)
      → ((d : Bool) → (compare_counts db config d rows w).0 ≡ ok b → All (IsCounted w) rows)
      → (r : Result ℕ) → db.table_count config.target_db_user_dsn table w ≡ r
      → (continue r w (λ m. compare_counts db config (if ltb m n then false else deuce) rows)).0
        ≡ ok b
      → IsCounted w (table, n) × All (IsCounted w) rows
  row-counts w deuce table n rows b ih (ok m) e h = ((m, e), ih _ h)
  row-counts w deuce table n rows b ih (err x) e h = cc
  row-counts w deuce table n rows b ih panic e h = cc

  pub compare_counts-IsCounted :
      (w : W) (deuce : Bool) (rows : List (String × ℕ)) (b : Bool)
      → (compare_counts db config deuce rows w).0 ≡ ok b
      → All (IsCounted w) rows
  unfolding compare_counts
  compare_counts-IsCounted w deuce [] b h = tt
  compare_counts-IsCounted w deuce ((table, n) ∷ rows) b h =
      row-counts w deuce table n rows b (λ d. compare_counts-IsCounted w d rows b) _ refl h

  IsCounted-compare_counts :
      (w : W) (deuce : Bool) (rows : List (String × ℕ))
      → All (IsCounted w) rows
      → (b : Bool) × ((compare_counts db config deuce rows w).0 ≡ ok b)
  unfolding compare_counts
  IsCounted-compare_counts w deuce [] all = (deuce, refl)
  IsCounted-compare_counts w deuce ((table, n) ∷ rows) ((m, e), all) =
      let (b, q) = IsCounted-compare_counts w (if ltb m n then false else deuce) rows all in
      (b, rw e q)

  row-Keeps :
      (w : W) (r : Result ℕ) (k : ℕ → Exec W Bool)
      → ((m : ℕ) → (k m w).1 ≡ w)
      → (continue r w k).1 ≡ w
  row-Keeps w (ok m) k h = h m
  row-Keeps w (err e) k h = refl
  row-Keeps w panic k h = refl

  compare_counts-Keeps :
      (w : W) (deuce : Bool) (rows : List (String × ℕ))
      → (compare_counts db config deuce rows w).1 ≡ w
  unfolding compare_counts
  compare_counts-Keeps w deuce [] = refl
  compare_counts-Keeps w deuce ((table, n) ∷ rows) =
      row-Keeps w (db.table_count config.target_db_user_dsn table w)
        (λ m. compare_counts db config (if ltb m n then false else deuce) rows)
        (λ m. compare_counts-Keeps w (if ltb m n then false else deuce) rows)

  -- the comparison of the rows that are counted and not all reached
  IsCounted-false :
      (w : W) (rows : List (String × ℕ))
      → All (IsCounted w) rows
      → ¬ All (IsReached w) rows
      → (compare_counts db config true rows w).0 ≡ ok false
  IsCounted-false w rows all unreached = decide (IsCounted-compare_counts w true rows all)
    where
      decide :
          (b : Bool) × ((compare_counts db config true rows w).0 ≡ ok b)
          → (compare_counts db config true rows w).0 ≡ ok false
      decide (true, e) = absurd (unreached (compare_counts-IsReached w true rows e).1)
      decide (false, e) = e

  -- With both databases reachable and the rows of the source counted, a migration leaves the check
  -- for the end of its replication exactly when every table of the source is found in the target
  -- with no fewer rows, and it asks for a retry exactly when the target answers for every table, and
  -- has fewer rows of some. Whatever comes of it, the check changes nothing.
  pub validate_migration_iff :
      (w : W) (rows : List (String × ℕ))
      → db.ping config.target_db_user_dsn w ≡ ok tt
      → db.ping config.source_db_user_dsn w ≡ ok tt
      → db.table_counts config.source_db_user_dsn w ≡ ok rows
      → let done = execute db config validate_migration_status_state w in
        ((done ≡ (ok (some disable_subscription_state), w)) ↔ All (IsReached w) rows)
        × ((done ≡ (ok (some retry_state), w))
            ↔ (All (IsCounted w) rows × (¬ All (IsReached w) rows)))
        × (done.1 ≡ w)
  unfolding execute execute_validate_migration_status
  validate_migration_iff w rows p q r =
      let same = compare_counts-Keeps w true rows in
      (
        (
          λ h. (compare_counts-IsReached w true rows (ground arith)).1,
          λ all. ground (arith, IsReached-compare_counts w rows all),
        ),
        (
          λ h.
              let e : (compare_counts db config true rows w).0 ≡ ok false =
                ground (arith, h, p, q, r) in
              (
                compare_counts-IsCounted w true rows false e,
                λ all. let f = IsReached-compare_counts w rows all in cc,
              ),
          λ (all, unreached).
              let e = IsCounted-false w rows all unreached in ground (arith, e, same, p, q, r),
        ),
        ground (arith, same, p, q, r),
      )
