-- ===== src/Exec/Chain.antt =====
-- Inversion of a chain of handlers that succeeds.
use db_controller.Prelude.{◌≡◌, refl}
use db_controller.Api.Error.{Result, ok, err, panic}
use db_controller.Exec.{Exec, continue, ◌>>=◌}

module _ {ℓ} {S A B : Type ℓ} where
  continue-ok :
      (r : Result A) (s : S) (f : A → Exec S B) {b : B}
      → (continue r s f).0 ≡ ok b
      → (a : A) × (r ≡ ok a) × ((f a s).0 ≡ ok b) × (continue r s f ≡ f a s)
  continue-ok (ok a) s f h = (a, refl, h, refl)
  continue-ok (err e) s f h = cc
  continue-ok panic s f h = cc

  -- The first handler of a chain that succeeds gives a value, and the rest goes on from it.
  pub chain-ok :
      (m : Exec S A) (f : A → Exec S B) (s : S) {b : B}
      → ((m >>= f) s).0 ≡ ok b
      → (a : A) × ((m s).0 ≡ ok a) × ((f a (m s).1).0 ≡ ok b) × ((m >>= f) s ≡ f a (m s).1)
  chain-ok m f s h = continue-ok (m s).0 (m s).1 f h
