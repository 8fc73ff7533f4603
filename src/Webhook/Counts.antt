-- ===== src/Webhook/Counts.antt =====
-- What the injections of internal/webhook add to a pod.
use db_controller.Prelude.{
  ℕ, ◌+◌, ◌≤◌, String, Bool, false, List, [], ◌∷◌, ◌++◌, ◌≡◌, refl, some, subst, inl, inr, eq_iff,
  ◌==◌, if◌then◌else◌, arith,
}
use db_controller.Api.Error.{Result, ok, bind-ok}
use db_controller.Webhook.{Volume, Container, Pod, has_volume, has_container}
use db_controller.Webhook.Cases.{Injects, proxy, exec, nothing, default_cases}
use db_controller.Webhook.Defaulter.{PodAnnotator, Reader, default}
use db_controller.Webhook.Inject.{
  add_container, add_volume, exec_config, inject_exec, exec_container, mutate_pod_exec,
  mutate_pod_proxy, proxy_container, volume_name_exec, volume_name_exec_config, volume_name_proxy,
}

-- how many volumes and containers have the name
unfoldable pub volumes_named : String → List Volume → ℕ
volumes_named name [] = 0
volumes_named name (v ∷ volumes) = (if v.name == name then 1 else 0) + volumes_named name volumes

unfoldable pub containers_named : String → List Container → ℕ
containers_named name [] = 0
containers_named name (c ∷ containers) =
    (if c.name == name then 1 else 0) + containers_named name containers

none_volumes :
    (name : String) (vs : List Volume) → has_volume name vs ≡ false → volumes_named name vs ≡ 0
unfolding volumes_named has_volume
none_volumes name [] h = refl
none_volumes name (v ∷ vs) h = ground (arith, none_volumes name vs)

none_containers :
    (name : String) (cs : List Container)
    → has_container name cs ≡ false
    → containers_named name cs ≡ 0
unfolding containers_named has_container
none_containers name [] h = refl
none_containers name (c ∷ cs) h = ground (arith, none_containers name cs)

volumes_named-append :
    (name : String) (vs : List Volume) (v : Volume)
    → volumes_named name (vs ++ (v ∷ []))
      ≡ volumes_named name vs + (if v.name == name then 1 else 0)
unfolding volumes_named
volumes_named-append name [] v = omega arith
volumes_named-append name (u ∷ vs) v = omega (arith, volumes_named-append name vs v)

containers_named-append :
    (name : String) (cs : List Container) (c : Container)
    → containers_named name (cs ++ (c ∷ []))
      ≡ containers_named name cs + (if c.name == name then 1 else 0)
unfolding containers_named
containers_named-append name [] c = omega arith
containers_named-append name (d ∷ cs) c = omega (arith, containers_named-append name cs c)

abbrev ok_pod : Pod → Result Pod → Pod
ok_pod p (ok q) = q
ok_pod p _ = p

-- no two volumes and no two containers have the name
abbrev pub Single : String → Pod → Type 0
Single name pod = (volumes_named name pod.volumes ≤ 1) × (containers_named name pod.containers ≤ 1)

add_volume-Single :
    (name other secret : String) (pod : Pod)
    → Single name pod
    → Single name (add_volume other secret pod)
unfolding add_volume
add_volume-Single name other secret pod h =
    let added : Volume = record { name = other; secret = some secret } in
    ground (
      arith,
      eq_iff other name,
      none_volumes name pod.volumes,
      volumes_named-append name pod.volumes added,
    )

add_container-Single :
    (name : String) (c : Container) (pod : Pod)
    → Single name pod
    → Single name (add_container c pod)
unfolding add_container
add_container-Single name c pod h = ground (
  arith,
  eq_iff c.name name,
  none_containers name pod.containers,
  containers_named-append name pod.containers c,
)

mutate_pod_proxy-Single :
    (name : String) (pod : Pod) (secret image : String) (ready live : Bool)
    → Single name pod
    → Single name (mutate_pod_proxy pod secret image ready live)
unfolding mutate_pod_proxy
mutate_pod_proxy-Single name pod secret image ready live h =
    add_container-Single name (proxy_container image ready live)
      (add_volume volume_name_proxy secret pod)
      (add_volume-Single name volume_name_proxy secret pod h)

mutate_pod_exec-Single :
    (name : String) (pod : Pod) (secret image : String) (ready : Bool) {q : Pod}
    → mutate_pod_exec pod secret image ready ≡ ok q
    → Single name pod
    → Single name q
unfolding mutate_pod_exec
mutate_pod_exec-Single name pod secret image ready e h =
    let (config, _, f) =
      bind-ok (exec_config pod) (λ config. ok (inject_exec pod secret image ready config)) e in
    let two = add_volume-Single name volume_name_exec secret pod h in
    let three =
      add_volume-Single name volume_name_exec_config config (add_volume volume_name_exec secret pod)
        two in
    subst (λ r. Single name (ok_pod pod r)) f
      (add_container-Single name (exec_container image ready)
        (add_volume volume_name_exec_config config (add_volume volume_name_exec secret pod)) three)

module _ (reader : Reader) (p : PodAnnotator) where
  Injects-Single :
      (name : String) (pod q : Pod) (secret : String)
      → Injects reader p pod secret q
      → Single name pod
      → Single name q
  Injects-Single name pod q secret (proxy _ e) h =
      rw e
        (mutate_pod_proxy-Single name pod secret p.db_proxy_img p.enable_ready p.enable_liveness h)
  Injects-Single name pod q secret (exec _ _ e) h =
      mutate_pod_exec-Single name pod secret p.dsn_exec_img p.enable_ready e h
  Injects-Single name pod q secret (nothing _ _ e) h = rw e h

  -- Whatever the name, a pod with at most one volume and at most one container of that name keeps
  -- this when Default handles it.
  pub default-Single :
      (name : String) (pod q : Pod) → default reader p pod ≡ ok q → Single name pod → Single name q
  default-Single name pod q e h = elim (default_cases reader p pod q e) [
    | inl same ↦ rw same h
    | inr (secret, _, i) ↦ Injects-Single name pod q secret i h
  ]
