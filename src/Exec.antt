-- ===== src/Exec.antt =====
-- Handlers that change a state and may fail. Go undoes nothing on an error, so the state comes back
-- beside every outcome, and a nil dereference passes by the handlers of errors.
pub mod Chain
pub mod Frame
use db_controller.Api.Error.{Err, Result, ok, err, panic}

abbrev pub Exec {ℓ} : Type ℓ → Type ℓ → Type ℓ
Exec S A = S → Result A × S

module _ {ℓ} {S A : Type ℓ} where
  abbrev pub pure : A → Exec S A
  pure a s = (ok a, s)

  abbrev pub fail : Err → Exec S A
  fail e s = (err e, s)

  abbrev pub crash : Exec S A
  crash s = (panic, s)

  -- a call that reads the state
  abbrev pub ask : (S → Result A) → Exec S A
  ask f s = (f s, s)

  abbrev pub lift : Result A → Exec S A
  lift r s = (r, s)

abbrev pub modify {ℓ} : {S : Type ℓ} → (S → S) → Exec S (Unit {ℓ})
modify f s = (ok tt, f s)

module _ {ℓ} {S A B : Type ℓ} where
  abbrev pub continue : Result A → S → (A → Exec S B) → Result B × S
  continue (ok a) s f = f a s
  continue (err e) s f = (err e, s)
  continue panic s f = (panic, s)

  infixl 5 ◌>>=◌ ◌>>◌
  abbrev pub ◌>>=◌ : Exec S A → (A → Exec S B) → Exec S B
  ◌>>=◌ m f s = continue (m s).0 (m s).1 f

  abbrev pub ◌>>◌ : Exec S A → Exec S B → Exec S B
  m >> k = m >>= λ _. k

  -- `if err != nil { return handler(err) }` behind a call
  abbrev pub rescue : Result A → S → (Err → Exec S B) → (A → Exec S B) → Result B × S
  rescue (ok a) s handler f = f a s
  rescue (err e) s handler f = handler e s
  rescue panic s handler f = (panic, s)

  abbrev pub attempt : Exec S A → (Err → Exec S B) → (A → Exec S B) → Exec S B
  attempt m handler f s = rescue (m s).0 (m s).1 handler f
