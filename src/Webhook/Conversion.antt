-- ===== src/Webhook/Conversion.antt =====
-- Handle and convertPod of internal/webhook/conversion.go.
use db_controller.Prelude.{
  ℕ, String, not, ◌&&◌, ◌||◌, List, [], ◌∷◌, ◌++◌, insert, remove, value, before, ◌==◌, ◌<>◌,
  if◌then◌else◌,
}
use db_controller.Api.Error.{Err, Result, ok, err, panic, message, ◌>>=◌}
use db_controller.Webhook.{
  Pod, prefixed, label_check_proxy, label_check_exec, label_claim, label_class, label_config_exec,
  deprecated_dsnexec_config,
}
use db_controller.Webhook.Defaulter.{OwnerReference, Reader}

-- DeprecatedAnnotationRemoteDBDSN
abbrev pub deprecated_remote_db_dsn : String
deprecated_remote_db_dsn = "infoblox.com/remote-db-dsn-secret"

-- DeprecatedAnnotationDBSecretPath
abbrev pub deprecated_db_secret_path : String
deprecated_db_secret_path = "infoblox.com/db-secret-path"

-- DeprecatedAnnotationMessages
abbrev pub deprecation_messages : String
deprecation_messages = prefixed "deprecation-messages"

-- the loop of getClaimName: the last owner of either kind
unfoldable pub owner_name : List OwnerReference → String → String
owner_name [] found = found
owner_name (o ∷ owners) found =
    owner_name owners
      (if o.kind == "DatabaseClaim" || o.kind == "DbRoleClaim" then o.name else found)

abbrev pub named_owner : String → Result String
named_owner name =
    if name == "" then err (message "unable to find claim owner reference") else ok name

-- the name of the secret, without the key behind it
unfoldable pub secret_name : Pod → String
unfolding value before
secret_name pod =
    let remote = value deprecated_remote_db_dsn pod.annotations in
    before b'/' (if remote == "" then value deprecated_db_secret_path pod.annotations else remote)

-- strings.Join(messages, "\n")
abbrev pub join_lines : List String → String
join_lines [] = ""
join_lines (m ∷ []) = m
join_lines (m ∷ n ∷ ms) = m <> ("\n" <> join_lines (n ∷ ms))

-- the pod, and the messages so far
abbrev pub Converting : Type 0
Converting = Pod × List String

abbrev use_label : String → String → String
use_label label annotation =
    "Use label \"" <> (label <> ("\", annotation \"" <> (annotation <> "\" is deprecated")))

abbrev replaces : String → String → String
replaces label annotation =
    "Label \"" <> (label <> ("\" replaces annotation \"" <> (annotation <> "\"")))

abbrev set_label : String → String → Pod → Pod
set_label key label pod = record pod { labels = insert key label pod.labels }

abbrev set_claim : String → String → Pod → Pod
set_claim class name pod = set_label label_class class (set_label label_claim name pod)

-- A pod whose remote DSN is not empty gets both messages.
unfoldable pub convert_exec : String → String → Converting → Converting
unfolding value
convert_exec class name (pod, messages) =
    let config = value deprecated_dsnexec_config pod.annotations in
    if not (config == "") && not (value deprecated_remote_db_dsn pod.annotations == "")
    then (
      set_label label_check_exec "enabled"
          (set_label label_config_exec config (set_claim class name pod)),
      messages
          ++ (use_label label_config_exec deprecated_dsnexec_config
              ∷ use_label label_claim deprecated_remote_db_dsn
              ∷ []),
    )
    else (pod, messages)

unfoldable pub convert_proxy : String → String → Converting → Converting
unfolding value
convert_proxy class name (pod, messages) =
    if not (value deprecated_db_secret_path pod.annotations == "")
    then (
      set_label label_check_proxy "enabled" (set_claim class name pod),
      messages ++ (replaces label_claim deprecated_db_secret_path ∷ []),
    )
    else (pod, messages)

unfoldable pub remove_deprecated : Pod → Pod
unfolding remove
remove_deprecated pod = record pod {
  annotations =
      remove deprecated_db_secret_path
        (remove deprecated_dsnexec_config (remove deprecated_remote_db_dsn pod.annotations));
}

abbrev message_head : String
message_head =
    "Warning: Deprecated annotations detected.\nSee docs for updated syntax: https://infobloxopen.github.io/db-controller/#quick-start\n"

abbrev pub tell : List String → Pod → Pod
tell [] pod = pod
tell (m ∷ ms) pod = record pod {
  annotations = insert deprecation_messages (message_head <> join_lines (m ∷ ms)) pod.annotations;
}

-- what follows once the claim is known
unfoldable pub convert_with : String → String → Pod → Pod
unfolding convert_exec convert_proxy remove_deprecated
convert_with class name pod =
    let (converted, messages) = convert_proxy class name (convert_exec class name (pod, [])) in
    tell messages (remove_deprecated converted)

-- admission.Response: the pod as it is, the patch that makes it this pod, or an error with its code
pub data Response : Type 0 where
  allowed : String → Response
  patched : Pod → Response
  errored : ℕ → Err → Response

abbrev pub respond : Result Pod → Result Response
respond (ok pod) = ok (patched pod)
respond (err e) = ok (errored 500 e)
respond panic = panic

module _ (reader : Reader) (class : String) where
  -- getClaimName
  unfoldable pub get_claim_name : String → String → Result String
  unfolding owner_name
  get_claim_name namespace secret =
      reader.get_owners namespace secret >>= λ owners. named_owner (owner_name owners "")

  -- convertPod
  unfoldable pub convert_pod : Pod → Result Pod
  unfolding secret_name get_claim_name convert_with
  convert_pod pod =
      get_claim_name pod.namespace (secret_name pod) >>= λ name. ok (convert_with class name pod)

  -- Handle, of a pod that is decoded
  unfoldable pub handle : Pod → Result Response
  unfolding value convert_pod
  handle pod =
      if value label_check_exec pod.labels == "enabled"
        || value label_check_proxy pod.labels == "enabled"
      then ok (allowed "Skipped conversion, already converted")
      else if value deprecated_dsnexec_config pod.annotations == ""
          && value deprecated_remote_db_dsn pod.annotations == ""
          && value deprecated_db_secret_path pod.annotations == ""
      then ok (allowed "Skipped conversion, no deprecated annotations found")
      else respond (convert_pod pod)
