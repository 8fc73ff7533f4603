-- ===== src/Api/Error.antt =====
-- Go's `error` values, and what a call ends in. A nil dereference ends a call too, and no
-- `if err != nil` sees it.
use db_controller.Prelude.{String, Bool, true, false, ◌≡◌, refl}

pub data Err : Type 0 where
  -- an API server's NotFound and Conflict; any other failure of a call, with its message
  not_found conflict : Err
  failed : String → Err
  -- pkg/databaseclaim/claimstatus.go: ErrDoNotUpdateStatus
  do_not_update_status : Err
  -- an error that this program makes, and one that it wraps by `%w`, behind a text or before one
  message : String → Err
  wrapped : String → Err → Err
  followed : Err → String → Err
  -- pkg/databaseclaim/claimstatus.go: managedErr
  managed : Err → Err

pub data Result {ℓ} (A : Type ℓ) : Type ℓ where
  ok : A → Result A
  err : Err → Result A
  panic : Result A

-- errors.IsNotFound
abbrev pub is_not_found : Err → Bool
is_not_found not_found = true
is_not_found (wrapped s e) = is_not_found e
is_not_found (followed e s) = is_not_found e
is_not_found _ = false

-- errors.IsConflict
abbrev pub is_conflict : Err → Bool
is_conflict conflict = true
is_conflict (wrapped s e) = is_conflict e
is_conflict (followed e s) = is_conflict e
is_conflict _ = false

-- errors.Is(err, ErrDoNotUpdateStatus)
abbrev pub is_do_not_update_status : Err → Bool
is_do_not_update_status do_not_update_status = true
is_do_not_update_status (wrapped s e) = is_do_not_update_status e
is_do_not_update_status (followed e s) = is_do_not_update_status e
is_do_not_update_status _ = false

infixl 5 ◌>>=◌
abbrev pub ◌>>=◌ {ℓ κ} : {A : Type ℓ} {B : Type κ} → Result A → (A → Result B) → Result B
ok a >>= f = f a
err e >>= f = err e
panic >>= f = panic

-- Inversion of a chain that succeeds.
pub bind-ok {ℓ κ} :
    {A : Type ℓ} {B : Type κ} (first : Result A) (next : A → Result B) {y : B}
    → (first >>= next) ≡ ok y
    → (x : A) × (first ≡ ok x) × (next x ≡ ok y)
bind-ok (ok x) next h = (x, refl, h)
bind-ok (err e) next h = cc
bind-ok panic next h = cc
