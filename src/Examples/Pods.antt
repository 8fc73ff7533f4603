-- ===== src/Examples/Pods.antt =====
-- Pods that name a claim, and the theorems about the webhooks at these.
use db_controller.Prelude.{
  ◌⊎◌, remove, String, true, false, [], ◌∷◌, insert, lookup, value, ◌≡◌, refl, ◌==◌, arith,
}
use db_controller.Api.Error.{Result, ok, err, not_found}
use db_controller.Examples.Fixtures.{claim}
use db_controller.Webhook.{
  annotation_injected_proxy, deprecated_dsnexec_config, Pod, has_container, has_volume,
  label_check_exec, label_check_proxy, label_claim, label_class, label_config_exec,
}
use db_controller.Webhook.Cases.{IsPassed, exec_is_due, proxy_is_due}
use db_controller.Webhook.Conversion.{
  Response, get_claim_name, secret_name, allowed, deprecated_db_secret_path,
  deprecated_remote_db_dsn, handle, patched, remove_deprecated,
}
use db_controller.Webhook.Converted.{handle-settles}
use db_controller.Webhook.Counts.{Single, containers_named, volumes_named, default-Single}
use db_controller.Webhook.Defaulter.{PodAnnotator, Reader, default, find_claim, secret_of}
use db_controller.Webhook.Inject.{container_name_proxy, volume_name_proxy}
use db_controller.Webhook.Injected.{converted-Injected}
use db_controller.Webhook.Lost.{remote_only-lost}
use db_controller.Webhook.Settles.{default-settles}

abbrev reader : Reader
reader = record {
  get_claim = λ _ _. ok claim;
  get_role = λ _ _. err not_found;
  get_owners = λ _ _. ok (record { kind = "DatabaseClaim"; name = "app" } ∷ []);
  quote = λ s. s;
}

abbrev annotator : PodAnnotator
annotator = record {
  class = "default";
  db_proxy_img = "dbproxy:1";
  dsn_exec_img = "dsnexec:1";
  enable_ready = true;
  enable_liveness = false;
}

abbrev bare_pod : Pod
bare_pod = record {
  namespace = "ns";
  name = "pod";
  labels = [];
  annotations = [];
  volumes = [];
  containers = [];
}

-- a pod that asks for both injections
abbrev both : Pod
both = record bare_pod {
  labels =
      (label_claim, "app")
      ∷ (label_class, "default")
      ∷ (label_check_proxy, "enabled")
      ∷ (label_check_exec, "enabled")
      ∷ (label_config_exec, "settings")
      ∷ [];
}

abbrev pod_of : Pod → Result Pod → Pod
pod_of p (ok q) = q
pod_of p _ = p

abbrev once : Pod
once = pod_of both (default reader annotator both)

abbrev twice : Pod
twice = pod_of once (default reader annotator once)

injected_once : default reader annotator both ≡ ok once
unfolding default lookup
injected_once = refl

injected_twice : default reader annotator once ≡ ok twice
unfolding default lookup insert
injected_twice = refl

default-Single_example : Single container_name_proxy once
unfolding volumes_named containers_named
default-Single_example =
    default-Single reader annotator container_name_proxy both once injected_once (omega arith)

default-settles_example :
    (default reader annotator twice ≡ ok twice)
    × (((proxy_is_due twice ≡ false) × (exec_is_due twice ≡ false))
        ⊎ IsPassed reader annotator both)
default-settles_example =
    default-settles reader annotator both once twice injected_once injected_twice

-- a pod with the deprecated annotation for dbproxy
abbrev old : Pod
old = record bare_pod { annotations = (deprecated_db_secret_path, "app-secret/uri_dsn.txt") ∷ [] }

abbrev patch_of : Result Response → Pod
patch_of (ok (patched p)) = p
patch_of _ = bare_pod

abbrev renewed : Pod
renewed = patch_of (handle reader "default" old)

converted_old : handle reader "default" old ≡ ok (patched renewed)
unfolding handle lookup insert remove
converted_old = refl

handle-settles_example : (m : String) × (handle reader "default" renewed ≡ ok (allowed m))
handle-settles_example = handle-settles reader "default" old renewed converted_old

found_app : find_claim reader "ns" "app" ≡ ok tt
unfolding find_claim
found_app = refl

secret_of_app : secret_of reader "ns" "app" ≡ ok "app-secret"
unfolding secret_of
secret_of_app = refl

owned_by_app : get_claim_name reader "default" "ns" (secret_name old) ≡ ok "app"
unfolding get_claim_name
owned_by_app = refl

with_path : (value deprecated_db_secret_path old.annotations == "") ≡ false
unfolding value lookup
with_path = refl

unmarked : (value annotation_injected_proxy old.annotations == "true") ≡ false
unfolding value lookup
unmarked = refl

converted-Injected_example :
    (r : Pod) × (default reader annotator renewed ≡ ok r)
    × (has_container container_name_proxy r.containers ≡ true)
    × (has_volume volume_name_proxy r.volumes ≡ true)
converted-Injected_example =
    converted-Injected reader "default" annotator old renewed "app" "app-secret" converted_old
      with_path unmarked owned_by_app found_app secret_of_app refl

-- a pod with the deprecated annotation for a secret of dsnexec alone
abbrev half : Pod
half = record bare_pod { annotations = (deprecated_remote_db_dsn, "app-secret") ∷ [] }

abbrev stripped : Pod
stripped = patch_of (handle reader "default" half)

converted_half : handle reader "default" half ≡ ok (patched stripped)
unfolding handle lookup insert remove
converted_half = refl

left_alone : default reader annotator stripped ≡ ok stripped
unfolding default lookup handle remove
left_alone = refl

no_settings : value deprecated_dsnexec_config half.annotations ≡ ""
unfolding value lookup
no_settings = refl

no_path : value deprecated_db_secret_path half.annotations ≡ ""
unfolding value lookup
no_path = refl

remote_only-lost_example : (stripped ≡ remove_deprecated half) × (stripped ≡ stripped)
remote_only-lost_example =
    remote_only-lost reader "default" annotator half stripped stripped no_settings no_path
      converted_half left_alone
