-- ===== src/Webhook/Converted.antt =====
-- Pods behind Handle of internal/webhook/conversion.go, and Default of defaulter.go on them.
use db_controller.Prelude.{
  String, Bool, true, false, ◌&&◌, ◌||◌, List, [], ◌∷◌, value, value-insert, value-remove, ◌≡◌,
  refl, sym, subst, ◌==◌, if◌then◌else◌,
}
use db_controller.Api.Error.{Result, ok, err, panic, bind-ok}
use db_controller.Webhook.{Pod, label_check_exec, label_check_proxy, deprecated_dsnexec_config}
use db_controller.Webhook.Conversion.{
  Response, allowed, patched, convert_exec, convert_pod, convert_proxy, convert_with,
  deprecated_db_secret_path, deprecated_remote_db_dsn, get_claim_name, handle, remove_deprecated,
  respond, secret_name, tell,
}
use db_controller.Webhook.Defaulter.{Reader}

-- none of the deprecated annotations
abbrev pub IsBare : Pod → Type 0
IsBare pod =
    (value deprecated_dsnexec_config pod.annotations ≡ "")
    × (value deprecated_remote_db_dsn pod.annotations ≡ "")
    × (value deprecated_db_secret_path pod.annotations ≡ "")

remove_deprecated-IsBare : (pod : Pod) → IsBare (remove_deprecated pod)
unfolding remove_deprecated
remove_deprecated-IsBare pod = (
  rw value-remove (rw value-remove refl),
  rw value-remove (rw value-remove (rw value-remove refl)),
  rw value-remove refl,
)

tell-IsBare : (messages : List String) (pod : Pod) → IsBare pod → IsBare (tell messages pod)
tell-IsBare [] pod h = h
tell-IsBare (m ∷ ms) pod h = (rw value-insert h.0, rw value-insert h.1, rw value-insert h.2)

convert_with-IsBare : (class name : String) (pod : Pod) → IsBare (convert_with class name pod)
unfolding convert_with
convert_with-IsBare class name pod =
    let both = convert_proxy class name (convert_exec class name (pod, [])) in
    tell-IsBare both.1 (remove_deprecated both.0) (remove_deprecated-IsBare both.0)

module _ (reader : Reader) (class : String) where
  skips :
      (labelled : Bool) (a b c : String) (rest : Result Response)
      → a ≡ ""
      → b ≡ ""
      → c ≡ ""
      → (m : String) × ((if labelled
            then ok (allowed "Skipped conversion, already converted")
            else if a == "" && b == "" && c == ""
            then ok (allowed "Skipped conversion, no deprecated annotations found")
            else rest)
          ≡ ok (allowed m))
  skips true a b c rest p q r = ("Skipped conversion, already converted", refl)
  skips false a b c rest p q r =
      ("Skipped conversion, no deprecated annotations found", rw (p, q, r) refl)

  patched-ok : (answer : Result Pod) (q : Pod) → respond answer ≡ ok (patched q) → answer ≡ ok q
  patched-ok (ok p) q h = cc
  patched-ok (err e) q h = cc
  patched-ok panic q h = cc

  -- What Handle patches is the conversion of a pod without either label.
  patched_cases :
      (labelled bare : Bool) (answer : Result Pod) (q : Pod)
      → (if labelled
          then ok (allowed "Skipped conversion, already converted")
          else if bare
          then ok (allowed "Skipped conversion, no deprecated annotations found")
          else respond answer)
        ≡ ok (patched q)
      → (labelled ≡ false) × (answer ≡ ok q)
  patched_cases true bare answer q h = cc
  patched_cases false true answer q h = cc
  patched_cases false false answer q h = (refl, patched-ok answer q h)

  pub converted :
      (pod q : Pod)
      → convert_pod reader class pod ≡ ok q
      → (name : String) × (get_claim_name reader class pod.namespace (secret_name pod) ≡ ok name)
        × (q ≡ convert_with class name pod)
  unfolding convert_pod
  converted pod q h =
      let (name, found, e) =
        bind-ok (get_claim_name reader class pod.namespace (secret_name pod))
          (λ name. ok (convert_with class name pod)) h in
      (name, found, cc)

  pub handle-patched :
      (pod q : Pod)
      → handle reader class pod ≡ ok (patched q)
      → ((value label_check_exec pod.labels == "enabled"
            || value label_check_proxy pod.labels == "enabled")
          ≡ false)
        × (convert_pod reader class pod ≡ ok q)
  unfolding handle
  handle-patched pod q h =
      patched_cases
        (value label_check_exec pod.labels == "enabled"
          || value label_check_proxy pod.labels == "enabled")
        (value deprecated_dsnexec_config pod.annotations == ""
          && value deprecated_remote_db_dsn pod.annotations == ""
          && value deprecated_db_secret_path pod.annotations == "")
        (convert_pod reader class pod) q h

  -- A pod that Handle has converted is let pass when it comes again.
  pub handle-settles :
      (pod q : Pod)
      → handle reader class pod ≡ ok (patched q)
      → (m : String) × (handle reader class q ≡ ok (allowed m))
  unfolding handle
  handle-settles pod q h =
      let (name, _, same) = converted pod q ((handle-patched pod q h).1) in
      let bare : IsBare q = subst IsBare (sym same) (convert_with-IsBare class name pod) in
      skips
        (value label_check_exec q.labels == "enabled"
          || value label_check_proxy q.labels == "enabled")
        (value deprecated_dsnexec_config q.annotations)
        (value deprecated_remote_db_dsn q.annotations)
        (value deprecated_db_secret_path q.annotations) (respond (convert_pod reader class q))
        bare.0 bare.1 bare.2
