-- ===== src/Webhook/Lost.antt =====
-- Pods that convertPod of internal/webhook/conversion.go strips of an annotation and does not label.
use db_controller.Prelude.{
  String, Bool, true, false, ◌&&◌, ◌||◌, Map, value, ◌≡◌, refl, ap, ◌∙◌, inl, inr, ◌==◌,
}
use db_controller.Api.Error.{ok}
use db_controller.Webhook.{Pod, label_check_exec, label_check_proxy, deprecated_dsnexec_config}
use db_controller.Webhook.Cases.{proxy, exec, nothing, default_cases}
use db_controller.Webhook.Conversion.{
  patched, convert_with, deprecated_db_secret_path, handle, remove_deprecated,
}
use db_controller.Webhook.Converted.{converted, handle-patched}
use db_controller.Webhook.Defaulter.{PodAnnotator, Reader, default}

remote_only :
    (class name : String) (pod : Pod)
    → value deprecated_dsnexec_config pod.annotations ≡ ""
    → value deprecated_db_secret_path pod.annotations ≡ ""
    → convert_with class name pod ≡ remove_deprecated pod
unfolding convert_with
remote_only class name pod a b = rw (a, b) refl

or-parts : (a b : Bool) → (a || b) ≡ false → (a ≡ false) × (b ≡ false)
or-parts false b h = (refl, h)
or-parts true b h = cc

and-left : (a b : Bool) → a ≡ false → (a && b) ≡ false
and-left a b h = rw h refl

undue :
    (key : String) (b : Bool) {l m : Map String}
    → m ≡ l
    → (value key l == "enabled") ≡ false
    → (value key m == "enabled" && b) ≡ true
    → ⊥
undue key b {l} {m} e h d =
    let off = and-left (value key m == "enabled") b (ap (λ n. value key n == "enabled") e ∙ h) in cc

module _ (reader : Reader) (class : String) (p : PodAnnotator) where
  -- A pod that names a secret for dsnexec, but no settings for it and no secret for dbproxy, loses
  -- its annotation in the conversion and gets no label for it, so that Default then injects nothing.
  pub remote_only-lost :
      (pod q r : Pod)
      → value deprecated_dsnexec_config pod.annotations ≡ ""
      → value deprecated_db_secret_path pod.annotations ≡ ""
      → handle reader class pod ≡ ok (patched q)
      → default reader p q ≡ ok r
      → (q ≡ remove_deprecated pod) × (r ≡ q)
  unfolding remove_deprecated
  remote_only-lost pod q r a b h f =
      let (unlabelled, g) = handle-patched reader class pod q h in
      let (name, _, e) = converted reader class pod q g in
      let same = e ∙ remote_only class name pod a b in
      let labels : q.labels ≡ pod.labels = ap (λ (t : Pod). t.labels) same in
      let (no_exec, no_proxy) =
        or-parts (value label_check_exec pod.labels == "enabled")
          (value label_check_proxy pod.labels == "enabled") unlabelled in
      elim (default_cases reader p q r f) [
        | inl none ↦ (same, none)
        | inr (secret, _, proxy due _) ↦ absurd (undue label_check_proxy _ labels no_proxy due)
        | inr (secret, _, exec _ due _) ↦ absurd (undue label_check_exec _ labels no_exec due)
        | inr (secret, _, nothing _ _ none) ↦ (same, none)
      ]
