-- ===== src/Aws/Kept/Serve.antt =====
-- Handlers that leave the status of the claim and the request as they are, whatever they end in.
use db_controller.Prelude.{ℕ, String, Bool, Option, none, some, refl}
use db_controller.Api.Claim.{ClaimStatus}
use db_controller.Api.Error.{Result, ok, err, panic, is_not_found}
use db_controller.Cluster.{Context, Handler, here}
use db_controller.Exec.Frame.{Keeps, bind-Keeps, if-Keeps}
use db_controller.Exec.{fail, ◌>>=◌, ◌>>◌}
use db_controller.Reconciler.{Reconciler}
use db_controller.RequestInfo.{RequestInfo}
use db_controller.Aws.{set_backup_policy}
use db_controller.Aws.Instances.{or_create, unless_deleted}

-- the status of the claim, and the request
abbrev pub status_and_request : {W : Type 0} → Context W → ClaimStatus × RequestInfo
status_and_request s = (s.claim.status, s.info)

module _ {W : Type 0} where
  abbrev pub Same : {A : Type 0} → Handler W A → Type 0
  Same m = Keeps status_and_request m

  or_create-Same :
      {R : Type 0} (create : Handler W R) (found : Result R)
      → Same create
      → Same (or_create create found)
  or_create-Same create (ok resource) h s = refl
  or_create-Same create (err e) h s =
      if-Keeps status_and_request (is_not_found e) create (fail e) h (λ _. refl) s
  or_create-Same create panic h s = refl

  unless_deleted-Same :
      {A : Type 0} (kind name : String) (t : Option ℕ) (next : Handler W A)
      → Same next
      → Same (unless_deleted kind name t next)
  unless_deleted-Same kind name (some t) next h s = refl
  unless_deleted-Same kind name none next h s = h s

  pub then-Same :
      {A B : Type 0} (m : Handler W A) (next : A → Handler W B)
      → Same m
      → ((a : A) → Same (next a))
      → Same (m >>= next)
  then-Same = bind-Keeps status_and_request

module _ {W : Type 0} (r : Reconciler W) where
  policy-Same : Same (set_backup_policy r)
  unfolding set_backup_policy
  policy-Same s = refl

  -- The Get of a resource, its creation where it is missing, and what is done with it.
  pub serve-Same :
      {R : Type 0} (create : Handler W R) (get : W → Result R) (kind name : String)
      (deleted : R → Option ℕ) (next : R → Handler W Bool)
      → Same create
      → ((i : R) → Same (next i))
      → Same (
          set_backup_policy r >> here (λ s. or_create create (get s.world)) >>= λ i.
          unless_deleted kind name (deleted i) (next i))
  serve-Same create get kind name deleted next h k =
      let find = here (λ s. or_create create (get s.world)) in
      then-Same (set_backup_policy r >> find) (λ i. unless_deleted kind name (deleted i) (next i))
        (then-Same (set_backup_policy r) (λ _. find) policy-Same
          (λ _ s. or_create-Same create (get s.world) h s))
        (λ i. unless_deleted-Same kind name (deleted i) (next i) (k i))
