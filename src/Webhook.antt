-- ===== src/Webhook.antt =====
-- internal/webhook: the pods that name a claim, and what is injected into them. A map that is nil
-- reads like an empty one, and both handlers make one before they write, so that no map is nil here.
pub mod Inject
pub mod Defaulter
pub mod Conversion
pub mod Cases
pub mod Counts
pub mod Settles
pub mod Converted
pub mod Injected
pub mod Lost
use db_controller.Prelude.{
  ℕ, String, Bool, true, false, ◌||◌, Option, List, [], ◌∷◌, Map, ◌==◌, ◌<>◌, if◌then◌else◌,
}

-- corev1.Volume: the name of its secret, none where it is another kind of volume
pub record Volume : Type 0 where
  pub name : String
  pub secret : Option String

pub record VolumeMount : Type 0 where
  pub name : String
  pub mount_path : String
  pub read_only : Bool

-- corev1.Probe, of a command
pub record Probe : Type 0 where
  pub command : List String
  pub initial_delay_seconds : ℕ
  pub period_seconds : ℕ
  pub timeout_seconds : ℕ

pub record Container : Type 0 where
  pub name : String
  pub image : String
  pub image_pull_policy : String
  pub args : List String
  pub env : Map String
  pub liveness_probe : Option Probe
  pub readiness_probe : Option Probe
  pub volume_mounts : List VolumeMount

pub record Pod : Type 0 where
  pub namespace : String
  pub name : String
  pub labels : Map String
  pub annotations : Map String
  pub volumes : List Volume
  pub containers : List Container

-- the names in the label and the annotation keys of the program
abbrev pub prefixed : String → String
prefixed name = "persistance.atlas.infoblox.com/" <> name

abbrev pub label_check_proxy : String
label_check_proxy = prefixed "dbproxy"

abbrev pub label_check_exec : String
label_check_exec = prefixed "dsnexec"

abbrev pub label_config_exec : String
label_config_exec = prefixed "dsnexec-config"

abbrev pub label_claim : String
label_claim = prefixed "claim"

abbrev pub label_class : String
label_class = prefixed "class"

abbrev pub annotation_injected_proxy : String
annotation_injected_proxy = prefixed "injected-dbproxy"

abbrev pub annotation_injected_exec : String
annotation_injected_exec = prefixed "injected-dsnexec"

-- DeprecatedAnnotationDSNExecConfig
abbrev pub deprecated_dsnexec_config : String
deprecated_dsnexec_config = "infoblox.com/dsnexec-config-secret"

-- the loops that look for a volume and for a container
unfoldable pub has_volume : String → List Volume → Bool
has_volume name [] = false
has_volume name (v ∷ volumes) = v.name == name || has_volume name volumes

unfoldable pub has_container : String → List Container → Bool
has_container name [] = false
has_container name (c ∷ containers) = c.name == name || has_container name containers
