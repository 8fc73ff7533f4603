-- ===== src/Webhook/Cases.antt =====
-- The ways through Default of internal/webhook/defaulter.go that end in a pod.
use db_controller.Prelude.{
  String, Bool, true, false, not, ◌&&◌, value, ◌≡◌, ◌⊎◌, refl, inl, inr, ◌==◌, if◌then◌else◌, arith,
}
use db_controller.Api.Error.{Result, ok, err, panic, ◌>>=◌}
use db_controller.Webhook.{
  Pod, label_check_exec, label_check_proxy, label_claim, label_class, annotation_injected_exec,
  annotation_injected_proxy,
}
use db_controller.Webhook.Defaulter.{PodAnnotator, Reader, default, find_claim, inject, secret_of}
use db_controller.Webhook.Inject.{mutate_pod_exec, mutate_pod_proxy}

-- an injection that a label asks for and that no annotation marks as done
abbrev pub proxy_is_due : Pod → Bool
proxy_is_due pod =
    value label_check_proxy pod.labels == "enabled"
    && not (value annotation_injected_proxy pod.annotations == "true")

abbrev pub exec_is_due : Pod → Bool
exec_is_due pod =
    value label_check_exec pod.labels == "enabled"
    && not (value annotation_injected_exec pod.annotations == "true")

module _ (reader : Reader) (p : PodAnnotator) where
  abbrev pub with_proxy : Pod → String → Pod
  with_proxy pod secret =
      mutate_pod_proxy pod secret p.db_proxy_img p.enable_ready p.enable_liveness

  abbrev pub with_exec : Pod → String → Result Pod
  with_exec pod secret = mutate_pod_exec pod secret p.dsn_exec_img p.enable_ready

  pub data Injects (pod : Pod) (secret : String) (q : Pod) : Type 0 where
    proxy : proxy_is_due pod ≡ true → q ≡ with_proxy pod secret → Injects pod secret q
    exec :
        proxy_is_due pod ≡ false
        → exec_is_due pod ≡ true
        → with_exec pod secret ≡ ok q
        → Injects pod secret q
    nothing : proxy_is_due pod ≡ false → exec_is_due pod ≡ false → q ≡ pod → Injects pod secret q

  split :
      (pod q : Pod) (secret : String) (a b : Bool)
      → proxy_is_due pod ≡ a
      → exec_is_due pod ≡ b
      → (if a then ok (with_proxy pod secret) else if b then with_exec pod secret else ok pod)
        ≡ ok q
      → Injects pod secret q
  split pod q secret true b e f h = proxy e (ground (arith, h))
  split pod q secret false true e f h = exec e f h
  split pod q secret false false e f h = nothing e f (ground (arith, h))

  pub inject_cases :
      (pod q : Pod) (secret : String) → inject reader p pod secret ≡ ok q → Injects pod secret q
  unfolding inject
  inject_cases pod q secret h = split pod q secret (proxy_is_due pod) (exec_is_due pod) refl refl h

  -- Default goes on to the injection.
  pub record Reaches (pod : Pod) (secret : String) : Type 0 where
    pub claimed : (value label_claim pod.labels == "") ≡ false
    pub found : find_claim reader pod.namespace (value label_claim pod.labels) ≡ ok tt
    pub of_class : (value label_class pod.labels == p.class) ≡ true
    pub with_secret : secret_of reader pod.namespace (value label_claim pod.labels) ≡ ok secret

  guards :
      (pod q : Pod) (unnamed same : Bool) (found : Result (Unit {0})) (secret : Result String)
      → (if unnamed
          then ok pod
          else (found >>= λ _. if not same then ok pod else (secret >>= inject reader p pod)))
        ≡ ok q
      → (q ≡ pod)
        ⊎ ((s : String) × (unnamed ≡ false)
            × (found ≡ ok tt)
            × (same ≡ true)
            × (secret ≡ ok s)
            × (inject reader p pod s ≡ ok q))
  guards pod q true same found secret h = inl (ground (arith, h))
  guards pod q false false (ok tt) secret h = inl (ground (arith, h))
  guards pod q false true (ok tt) (ok s) h = inr (s, refl, refl, refl, refl, h)
  guards pod q false true (ok tt) (err e) h = cc
  guards pod q false true (ok tt) panic h = cc
  guards pod q false same (err e) secret h = cc
  guards pod q false same panic secret h = cc

  pub default_cases :
      (pod q : Pod)
      → default reader p pod ≡ ok q
      → (q ≡ pod) ⊎ ((s : String) × Reaches pod s × Injects pod s q)
  unfolding default
  default_cases pod q h =
      let name = value label_claim pod.labels in
      elim (guards pod q (name == "") (value label_class pod.labels == p.class)
        (find_claim reader pod.namespace name) (secret_of reader pod.namespace name) h) [
          | inl e ↦ inl e
          | inr (s, a, b, c, d, i) ↦ inr (
            s,
            record { claimed = a; found = b; of_class = c; with_secret = d },
            inject_cases pod q s i,
          )
        ]

  pub default_reached :
      (pod : Pod) (secret : String)
      → Reaches pod secret
      → default reader p pod ≡ inject reader p pod secret
  unfolding default
  default_reached pod secret r = rw (r.claimed, r.found, r.of_class, r.with_secret) refl

  -- Default lets the pod pass: it names no claim, or another class.
  abbrev pub IsPassed : Pod → Type 0
  IsPassed pod =
      ((value label_claim pod.labels == "") ≡ true)
      ⊎ ((value label_class pod.labels == p.class) ≡ false)

  guarded :
      (pod q : Pod) (unnamed same : Bool) (found : Result (Unit {0})) (secret : Result String)
      → (if unnamed
          then ok pod
          else (found >>= λ _. if not same then ok pod else (secret >>= inject reader p pod)))
        ≡ ok q
      → ((unnamed ≡ true) ⊎ (same ≡ false))
        ⊎ ((s : String) × (unnamed ≡ false) × (found ≡ ok tt) × (same ≡ true) × (secret ≡ ok s))
  guarded pod q true same found secret h = inl (inl refl)
  guarded pod q false false found secret h = inl (inr refl)
  guarded pod q false true (ok tt) (ok s) h = inr (s, refl, refl, refl, refl)
  guarded pod q false true (ok tt) (err e) h = cc
  guarded pod q false true (ok tt) panic h = cc
  guarded pod q false true (err e) secret h = cc
  guarded pod q false true panic secret h = cc

  -- A pod that Default returns is let pass, or the injection is reached.
  pub default_ways :
      (pod q : Pod) → default reader p pod ≡ ok q → IsPassed pod ⊎ ((s : String) × Reaches pod s)
  unfolding default
  default_ways pod q h =
      let name = value label_claim pod.labels in
      elim (guarded pod q (name == "") (value label_class pod.labels == p.class)
        (find_claim reader pod.namespace name) (secret_of reader pod.namespace name) h) [
          | inl e ↦ inl e
          | inr (s, a, b, c, d) ↦
              inr (s, record { claimed = a; found = b; of_class = c; with_secret = d })
        ]
