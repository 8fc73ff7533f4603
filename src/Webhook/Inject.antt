-- ===== src/Webhook/Inject.antt =====
-- mutatePodProxy of internal/webhook/dbproxy.go and mutatePodExec of internal/webhook/dsnexec.go.
use db_controller.Prelude.{
  ℕ, String, Bool, true, Option, none, some, [], ◌∷◌, ◌++◌, insert, value, ◌==◌, ◌<>◌,
  if◌then◌else◌,
}
use db_controller.Api.Claim.{dsn_uri_key}
use db_controller.Api.Error.{Result, ok, err, message, ◌>>=◌}
use db_controller.Webhook.{
  VolumeMount, Probe, Container, Pod, label_config_exec, annotation_injected_proxy,
  annotation_injected_exec, deprecated_dsnexec_config, has_volume, has_container,
}

abbrev pub volume_name_proxy : String
volume_name_proxy = "dbproxydsn"

abbrev pub container_name_proxy : String
container_name_proxy = "dbproxy"

abbrev pub volume_name_exec : String
volume_name_exec = "db-dsn"

abbrev pub volume_name_exec_config : String
volume_name_exec_config = "dsnexec-config"

abbrev pub container_name_exec : String
container_name_exec = "dsnexec"

-- a volume of a secret, added where the pod has none of its name
unfoldable pub add_volume : String → String → Pod → Pod
unfolding has_volume
add_volume name secret pod =
    if has_volume name pod.volumes
    then pod
    else record pod { volumes = pod.volumes ++ (record { name = name; secret = some secret } ∷ []) }

-- a container, added where the pod has none of its name
unfoldable pub add_container : Container → Pod → Pod
unfolding has_container
add_container container pod =
    if has_container container.name pod.containers
    then pod
    else record pod { containers = pod.containers ++ (container ∷ []) }

abbrev pub annotate : String → Pod → Pod
annotate key pod = record pod { annotations = insert key "true" pod.annotations }

-- a probe that runs a shell command
abbrev shell_probe : Bool → String → ℕ → Option Probe
shell_probe enabled command delay =
    if enabled
    then some (record {
      command = "/bin/sh" ∷ "-c" ∷ command ∷ [];
      initial_delay_seconds = delay;
      period_seconds = 15;
      timeout_seconds = 5;
    })
    else none

-- psql on the string that stands in a file
abbrev select_from : String → String
select_from file = "psql \"$(cat " <> (file <> ")\" -c \"SELECT 1\"")

abbrev read_only_mount : String → String → VolumeMount
read_only_mount name path = record { name = name; mount_path = path; read_only = true }

unfoldable pub proxy_container : String → Bool → Bool → Container
proxy_container image enable_ready enable_liveness = record {
  name = container_name_proxy;
  image = image;
  image_pull_policy = "IfNotPresent";
  args = [];
  env = ("DBPROXY_CREDENTIAL", "/dbproxy/" <> dsn_uri_key) ∷ [];
  liveness_probe = shell_probe enable_liveness (select_from ("/dbproxy/" <> dsn_uri_key)) 30;
  readiness_probe = shell_probe enable_ready "psql -h localhost -c \"SELECT 1\"" 5;
  volume_mounts = read_only_mount volume_name_proxy "/dbproxy" ∷ [];
}

-- mutatePodProxy
unfoldable pub mutate_pod_proxy : Pod → String → String → Bool → Bool → Pod
unfolding add_volume add_container proxy_container
mutate_pod_proxy pod secret image enable_ready enable_liveness =
    annotate annotation_injected_proxy (
      add_container (proxy_container image enable_ready enable_liveness)
        (add_volume volume_name_proxy secret pod))

unfoldable pub exec_container : String → Bool → Container
exec_container image enable_ready = record {
  name = container_name_exec;
  image = image;
  image_pull_policy = "IfNotPresent";
  args = "run" ∷ "--config-file" ∷ "/var/run/dsn-exec/config.yaml" ∷ [];
  env = ("DBPROXY_CREDENTIAL", "/var/run/db-dsn/" <> dsn_uri_key) ∷ [];
  liveness_probe = none;
  readiness_probe = shell_probe enable_ready (select_from ("/var/run/db-dsn/" <> dsn_uri_key)) 5;
  volume_mounts =
      read_only_mount volume_name_exec "/var/run/db-dsn"
      ∷ read_only_mount volume_name_exec_config "/var/run/dsn-exec"
      ∷ [];
}

-- the secret with the settings of dsnexec, from the deprecated annotation or else from the label
unfoldable pub exec_config : Pod → Result String
unfolding value
exec_config pod =
    if value deprecated_dsnexec_config pod.annotations == ""
    then (if value label_config_exec pod.labels == ""
        then err (message (label_config_exec <> " label was not found"))
        else ok (value label_config_exec pod.labels))
    else ok (value deprecated_dsnexec_config pod.annotations)

abbrev pub inject_exec : Pod → String → String → Bool → String → Pod
unfolding add_volume add_container exec_container
inject_exec pod secret image enable_ready config = annotate annotation_injected_exec (
    add_container (exec_container image enable_ready)
      (add_volume volume_name_exec_config config (add_volume volume_name_exec secret pod)))

-- mutatePodExec, which uses no liveness probe
unfoldable pub mutate_pod_exec : Pod → String → String → Bool → Result Pod
unfolding exec_config add_volume add_container exec_container
mutate_pod_exec pod secret image enable_ready =
    exec_config pod >>= λ config. ok (inject_exec pod secret image enable_ready config)
