-- ===== src/Webhook/Settles.antt =====
-- Default of internal/webhook/defaulter.go over its own result: the webhook is invoked again where
-- another one changes the pod (reinvocationPolicy=IfNeeded).
use db_controller.Prelude.{
  String, Bool, true, false, not, ◌&&◌, value, value-insert, ◌≡◌, ◌⊎◌, refl, sym, subst, ap, ◌∙◌,
  inl, inr, ◌==◌, arith,
}
use db_controller.Api.Error.{ok, bind-ok}
use db_controller.Webhook.{
  Container, Pod, label_check_exec, label_check_proxy, annotation_injected_exec,
  annotation_injected_proxy,
}
use db_controller.Webhook.Cases.{
  Injects, proxy, exec, nothing, Reaches, proxy_is_due, exec_is_due, default_cases, default_reached,
  IsPassed, inject_cases, default_ways,
}
use db_controller.Webhook.Defaulter.{PodAnnotator, Reader, default, inject}
use db_controller.Webhook.Inject.{
  add_container, add_volume, exec_config, exec_container, inject_exec, mutate_pod_exec,
  mutate_pod_proxy, proxy_container, volume_name_exec, volume_name_exec_config, volume_name_proxy,
}

-- what an injection reads of a pod, but for its own mark
abbrev pub SameClaim : Pod → Pod → Type 0
SameClaim pod q = (q.namespace ≡ pod.namespace) × (q.labels ≡ pod.labels)

add_volume-Same :
    (name secret : String) (pod : Pod)
    → SameClaim pod (add_volume name secret pod)
      × ((add_volume name secret pod).annotations ≡ pod.annotations)
unfolding add_volume
add_volume-Same name secret pod = ground arith

add_container-Same :
    (c : Container) (pod : Pod)
    → SameClaim pod (add_container c pod) × ((add_container c pod).annotations ≡ pod.annotations)
unfolding add_container
add_container-Same c pod = ground arith

with_proxy-Same :
    (pod : Pod) (secret image : String) (ready live : Bool)
    → let q = mutate_pod_proxy pod secret image ready live in
      SameClaim pod q
      × (value annotation_injected_proxy q.annotations ≡ "true")
      × (value annotation_injected_exec q.annotations
          ≡ value annotation_injected_exec pod.annotations)
unfolding mutate_pod_proxy
with_proxy-Same pod secret image ready live =
    let v = add_volume-Same volume_name_proxy secret pod in
    let c =
      add_container-Same (proxy_container image ready live)
        (add_volume volume_name_proxy secret pod) in
    let written = value-insert annotation_injected_proxy in
    (
      (c.0.0 ∙ v.0.0, c.0.1 ∙ v.0.1),
      written annotation_injected_proxy "true" _,
      written annotation_injected_exec "true" _ ∙ ap (value annotation_injected_exec) (c.1 ∙ v.1),
    )

with_exec-Same :
    (pod q : Pod) (secret image : String) (ready : Bool)
    → mutate_pod_exec pod secret image ready ≡ ok q
    → SameClaim pod q
      × (value annotation_injected_exec q.annotations ≡ "true")
      × (value annotation_injected_proxy q.annotations
          ≡ value annotation_injected_proxy pod.annotations)
unfolding mutate_pod_exec
with_exec-Same pod q secret image ready e =
    let (config, _, f) =
      bind-ok (exec_config pod) (λ config. ok (inject_exec pod secret image ready config)) e in
    let one = add_volume volume_name_exec secret pod in
    let two = add_volume volume_name_exec_config config one in
    let v = add_volume-Same volume_name_exec secret pod in
    let w = add_volume-Same volume_name_exec_config config one in
    let c = add_container-Same (exec_container image ready) two in
    let written = value-insert annotation_injected_exec in
    let same : q ≡ inject_exec pod secret image ready config = cc in
    subst
      (λ r.
        SameClaim pod r
        × (value annotation_injected_exec r.annotations ≡ "true")
        × (value annotation_injected_proxy r.annotations
            ≡ value annotation_injected_proxy pod.annotations))
      (sym same)
      (
        (c.0.0 ∙ w.0.0 ∙ v.0.0, c.0.1 ∙ w.0.1 ∙ v.0.1),
        written annotation_injected_exec "true" _,
        written annotation_injected_proxy "true" _
            ∙ ap (value annotation_injected_proxy) (c.1 ∙ w.1 ∙ v.1),
      )

marked : (b : Bool) {v : String} → v ≡ "true" → (b && not (v == "true")) ≡ false
marked true e = rw e refl
marked false e = refl

module _ (reader : Reader) (p : PodAnnotator) where
  Reaches-same :
      (pod q : Pod) (secret : String)
      → SameClaim pod q
      → Reaches reader p pod secret
      → Reaches reader p q secret
  Reaches-same pod q secret (n, l) r = record {
    claimed = rw l r.claimed;
    found = rw (n, l) r.found;
    of_class = rw l r.of_class;
    with_secret = rw (n, l) r.with_secret;
  }

  -- the injections that are due behind one that was made
  pub Injects-due :
      (pod q : Pod) (secret : String)
      → Injects reader p pod secret q
      → SameClaim pod q
        × ((q ≡ pod)
            ⊎ ((proxy_is_due pod ≡ true) × (proxy_is_due q ≡ false))
            ⊎ ((proxy_is_due q ≡ false) × (exec_is_due q ≡ false)))
  Injects-due pod q secret (proxy d e) =
      let done : Pod =
        mutate_pod_proxy pod secret p.db_proxy_img p.enable_ready p.enable_liveness in
      let (same, injected, _) =
        with_proxy-Same pod secret p.db_proxy_img p.enable_ready p.enable_liveness in
      rw e (same, inr (inl (d, marked (value label_check_proxy done.labels == "enabled") injected)))
  Injects-due pod q secret (exec d _ e) =
      let (same, injected, kept) = with_exec-Same pod q secret p.dsn_exec_img p.enable_ready e in
      (same, inr (inr (cc, marked (value label_check_exec q.labels == "enabled") injected)))
  Injects-due pod q secret (nothing _ _ e) = rw e ((refl, refl), inl refl)

  settled :
      (pod q : Pod) (secret : String)
      → Reaches reader p pod secret
      → SameClaim pod q
      → proxy_is_due q ≡ false
      → exec_is_due q ≡ false
      → default reader p q ≡ ok q
  unfolding inject
  settled pod q secret r same a b =
      default_reached reader p q secret (Reaches-same pod q secret same r) ∙ rw (a, b) refl

  -- Behind an invocation that changes the pod, the injection of the proxy is not due.
  proxy_done : (pod q : Pod) → default reader p pod ≡ ok q → (q ≡ pod) ⊎ (proxy_is_due q ≡ false)
  proxy_done pod q e = elim (default_cases reader p pod q e) [
    | inl same ↦ inl same
    | inr (secret, r, i) ↦ elim ((Injects-due pod q secret i).1) [
      | inl same ↦ inl same
      | inr (inl (_, done)) ↦ inr done
      | inr (inr (done, _)) ↦ inr done
    ]
  ]

  second :
      (pod q done : Pod) (secret : String)
      → default reader p pod ≡ ok q
      → default reader p q ≡ ok done
      → Reaches reader p q secret
      → Injects reader p q secret done
      → default reader p done ≡ ok done
  second pod q done secret e f r i =
      let (kept, ways) = Injects-due q done secret i in
      elim ways [
        | inl same ↦ cc
        | inr (inl (due, _)) ↦ elim (proxy_done pod q e) [ inl same ↦ cc | inr late ↦ cc ]
        | inr (inr (a, b)) ↦ settled q done secret r kept a b
      ]

  -- what is no longer due behind an injection
  Injects-done :
      (pod q : Pod) (secret : String)
      → Injects reader p pod secret q
      → (proxy_is_due q ≡ false) × (proxy_is_due pod ≡ false → exec_is_due q ≡ false)
  Injects-done pod q secret (proxy d e) =
      let done : Pod =
        mutate_pod_proxy pod secret p.db_proxy_img p.enable_ready p.enable_liveness in
      let (_, injected, _) =
        with_proxy-Same pod secret p.db_proxy_img p.enable_ready p.enable_liveness in
      (
        ap proxy_is_due e ∙ marked (value label_check_proxy done.labels == "enabled") injected,
        λ f. cc,
      )
  Injects-done pod q secret (exec d due e) =
      let (same, injected, kept) = with_exec-Same pod q secret p.dsn_exec_img p.enable_ready e in
      (cc, λ _. marked (value label_check_exec q.labels == "enabled") injected)
  Injects-done pod q secret (nothing a b e) = (ap proxy_is_due e ∙ a, λ _. ap exec_is_due e ∙ b)

  all_done :
      (pod q done : Pod) (secret : String)
      → Reaches reader p pod secret
      → default reader p pod ≡ ok q
      → default reader p q ≡ ok done
      → (proxy_is_due done ≡ false) × (exec_is_due done ≡ false)
  all_done pod q done secret r e f =
      let first =
        inject_cases reader p pod q secret (sym (default_reached reader p pod secret r) ∙ e) in
      let again = Reaches-same pod q secret (Injects-due pod q secret first).0 r in
      let next =
        inject_cases reader p q done secret (sym (default_reached reader p q secret again) ∙ f) in
      let (a, b) = Injects-done q done secret next in (a, b (Injects-done pod q secret first).0)

  -- After two invocations of Default that succeed, a third one returns the pod as it is. By then
  -- neither injection is due any more, one that a label asks for having its mark, or the pod that
  -- came first was let pass, since it names no claim or another class.
  pub default-settles :
      (pod q done : Pod)
      → default reader p pod ≡ ok q
      → default reader p q ≡ ok done
      → (default reader p done ≡ ok done)
        × (((proxy_is_due done ≡ false) × (exec_is_due done ≡ false)) ⊎ IsPassed reader p pod)
  default-settles pod q done e f = (
    elim (default_cases reader p q done f) [
      | inl same ↦ cc
      | inr (secret, r, i) ↦ second pod q done secret e f r i
    ],
    elim (default_ways reader p pod q e) [
      | inl out ↦ inr out
      | inr (secret, r) ↦ inl (all_done pod q done secret r e f)
    ],
  )
