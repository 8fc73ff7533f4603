-- ===== src/Exec/Frame.antt =====
-- Handlers that leave a part of the state as it is, whatever they end in.
use db_controller.Prelude.{Bool, true, false, ◌≡◌, refl, ◌∙◌, if◌then◌else◌}
use db_controller.Api.Error.{Err, Result, ok, err, panic}
use db_controller.Exec.{Exec, attempt, continue, rescue, ◌>>=◌}

module _ {ℓ κ} {S : Type ℓ} {V : Type κ} (view : S → V) where
  abbrev pub Keeps : {A : Type ℓ} → Exec S A → Type (ℓ ⊔ κ)
  Keeps m = (s : S) → view (m s).1 ≡ view s

  module _ {A B : Type ℓ} where
    continue-Keeps :
        (r : Result A) (f : A → Exec S B) (s : S)
        → ((a : A) → Keeps (f a))
        → view (continue r s f).1 ≡ view s
    continue-Keeps (ok a) f s h = h a s
    continue-Keeps (err e) f s h = refl
    continue-Keeps panic f s h = refl

    pub rescue-Keeps :
        (r : Result A) (handler : Err → Exec S B) (f : A → Exec S B) (s : S)
        → ((e : Err) → Keeps (handler e))
        → ((a : A) → Keeps (f a))
        → view (rescue r s handler f).1 ≡ view s
    rescue-Keeps (ok a) handler f s g h = h a s
    rescue-Keeps (err e) handler f s g h = g e s
    rescue-Keeps panic handler f s g h = refl

    pub bind-Keeps :
        (m : Exec S A) (f : A → Exec S B) → Keeps m → ((a : A) → Keeps (f a)) → Keeps (m >>= f)
    bind-Keeps m f k h s = continue-Keeps (m s).0 f (m s).1 h ∙ k s

    pub attempt-Keeps :
        (m : Exec S A) (handler : Err → Exec S B) (f : A → Exec S B)
        → Keeps m
        → ((e : Err) → Keeps (handler e))
        → ((a : A) → Keeps (f a))
        → Keeps (attempt m handler f)
    attempt-Keeps m handler f k g h s = rescue-Keeps (m s).0 handler f (m s).1 g h ∙ k s

  pub if-Keeps :
      {A : Type ℓ} (b : Bool) (x y : Exec S A) → Keeps x → Keeps y → Keeps (if b then x else y)
  if-Keeps true x y h k = h
  if-Keeps false x y h k = k
