-- ===== src/Webhook/Defaulter.antt =====
-- Default of internal/webhook/defaulter.go. `Reader` holds the calls of the API server.
use db_controller.Prelude.{String, Bool, not, ◌&&◌, List, value, ◌==◌, ◌<>◌, if◌then◌else◌}
use db_controller.Api.Claim.{DatabaseClaim}
use db_controller.Api.Error.{Result, ok, err, message, ◌>>=◌}
use db_controller.Api.RoleClaim.{DbRoleClaim}
use db_controller.Webhook.{
  Pod, label_check_proxy, label_check_exec, label_claim, label_class, annotation_injected_proxy,
  annotation_injected_exec,
}
use db_controller.Webhook.Inject.{mutate_pod_proxy, mutate_pod_exec}

-- metav1.OwnerReference
pub record OwnerReference : Type 0 where
  pub kind : String
  pub name : String

-- By a namespace and a name. `quote` is strconv.Quote.
pub record Reader : Type 0 where
  pub get_claim : String → String → Result DatabaseClaim
  pub get_role : String → String → Result DbRoleClaim
  pub get_owners : String → String → Result (List OwnerReference)
  pub quote : String → String

pub record PodAnnotator : Type 0 where
  pub class : String
  pub db_proxy_img : String
  pub dsn_exec_img : String
  pub enable_ready : Bool
  pub enable_liveness : Bool

-- A Get whose error is dropped leaves the object empty; its name and the name of its secret are used.
abbrev claim_names : Result DatabaseClaim → String × String
claim_names (ok claim) = (claim.name, claim.spec.secret_name)
claim_names _ = ("", "")

abbrev role_names : Result DbRoleClaim → String × String
role_names (ok role) = (role.name, role.spec.secret_name)
role_names _ = ("", "")

module _ (reader : Reader) where
  open reader use {get_claim, get_role, quote}

  -- getSecretNameClass, from the names of the claim and of the role claim
  unfoldable pub get_secret_name_class : String × String → String × String → Result String
  get_secret_name_class claim role =
      let (name, secret) = if not (role.0 == "") then role else claim in
      if secret == ""
      then err (message ("claim " <> (quote name <> " does not have secret reference")))
      else ok secret

  -- the part of Default in front of the test of the class
  unfoldable pub find_claim : String → String → Result (Unit {0})
  find_claim namespace name =
      if (role_names (get_role namespace name)).0 == ""
        && (claim_names (get_claim namespace name)).0 == ""
      then err (message ("unable to locate databaseclaim/dbroleclaim " <> quote name))
      else ok tt

  -- the secret of the claim with the name
  unfoldable pub secret_of : String → String → Result String
  unfolding get_secret_name_class
  secret_of namespace name =
      get_secret_name_class (claim_names (get_claim namespace name))
        (role_names (get_role namespace name))

  module _ (p : PodAnnotator) where
    -- the choice between the injections
    unfoldable pub inject : Pod → String → Result Pod
    unfolding value mutate_pod_exec mutate_pod_proxy
    inject pod secret =
        if value label_check_proxy pod.labels == "enabled"
          && not (value annotation_injected_proxy pod.annotations == "true")
        then ok (mutate_pod_proxy pod secret p.db_proxy_img p.enable_ready p.enable_liveness)
        else if value label_check_exec pod.labels == "enabled"
            && not (value annotation_injected_exec pod.annotations == "true")
        then mutate_pod_exec pod secret p.dsn_exec_img p.enable_ready
        else ok pod

    -- Default
    unfoldable pub default : Pod → Result Pod
    unfolding value find_claim secret_of inject
    default pod =
        let name = value label_claim pod.labels in
        if name == ""
        then ok pod
        else (find_claim pod.namespace name >>= λ _.
            if not (value label_class pod.labels == p.class)
            then ok pod
            else (secret_of pod.namespace name >>= λ secret. inject pod secret))
