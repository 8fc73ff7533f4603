-- ===== src/Webhook/Injected.antt =====
-- Handle of internal/webhook/conversion.go with Default of defaulter.go behind it: what becomes of a
-- pod with a deprecated annotation.
use db_controller.Prelude.{
  some, String, Bool, true, false, List, [], ◌∷◌, ◌++◌, value, lookup-insert, value-insert,
  value-remove, ◌≡◌, refl, sym, subst, ap, ◌∙◌, inl, inr, Bool-cases, eq_refl, ◌==◌, arith,
}
use db_controller.Api.Error.{ok, bind-ok}
use db_controller.Webhook.{
  Container, Pod, Volume, has_container, has_volume, label_check_proxy, label_claim, label_class,
  annotation_injected_proxy,
}
use db_controller.Webhook.Cases.{with_proxy, Reaches, proxy_is_due, default_reached}
use db_controller.Webhook.Conversion.{
  Converting, patched, convert_exec, convert_proxy, convert_with, deprecated_db_secret_path,
  get_claim_name, handle, named_owner, owner_name, remove_deprecated, secret_name, tell,
}
use db_controller.Webhook.Converted.{converted, handle-patched}
use db_controller.Webhook.Defaulter.{PodAnnotator, Reader, default, find_claim, inject, secret_of}
use db_controller.Webhook.Inject.{
  add_container, add_volume, container_name_proxy, mutate_pod_proxy, proxy_container,
  volume_name_proxy,
}

module _ (class name : String) where
  exec-annotations : (c : Converting) → (convert_exec class name c).0.annotations ≡ c.0.annotations
  unfolding convert_exec
  exec-annotations (pod, messages) = ground arith

  exec-namespace : (c : Converting) → (convert_exec class name c).0.namespace ≡ c.0.namespace
  unfolding convert_exec
  exec-namespace (pod, messages) = ground arith

  tell-labels :
      (messages : List String) (pod : Pod)
      → ((tell messages pod).labels ≡ pod.labels) × ((tell messages pod).namespace ≡ pod.namespace)
  tell-labels [] pod = (refl, refl)
  tell-labels (m ∷ ms) pod = (refl, refl)

  -- the labels of a pod with a secret for dbproxy
  proxy_labels :
      (c : Converting)
      → (value deprecated_db_secret_path c.0.annotations == "") ≡ false
      → let l = (convert_proxy class name c).0.labels in
        (value label_check_proxy l ≡ "enabled")
        × (value label_class l ≡ class)
        × (value label_claim l ≡ name)
  unfolding convert_proxy
  proxy_labels (pod, messages) h = rw h (
    rw lookup-insert refl,
    rw lookup-insert (rw lookup-insert refl),
    rw lookup-insert (rw lookup-insert (rw lookup-insert refl)),
  )

  proxy-kept :
      (c : Converting)
      → ((convert_proxy class name c).0.annotations ≡ c.0.annotations)
        × ((convert_proxy class name c).0.namespace ≡ c.0.namespace)
  unfolding convert_proxy
  proxy-kept (pod, messages) = ground arith

mark-kept :
    (messages : List String) (pod : Pod)
    → value annotation_injected_proxy (tell messages (remove_deprecated pod)).annotations
      ≡ value annotation_injected_proxy pod.annotations
unfolding remove_deprecated
mark-kept [] pod = rw value-remove (rw value-remove (rw value-remove refl))
mark-kept (m ∷ ms) pod = rw value-insert (rw value-remove (rw value-remove (rw value-remove refl)))

-- what Default reads of a converted pod with a secret for dbproxy
record ForProxy (class name : String) (pod q : Pod) : Type 0 where
  space : q.namespace ≡ pod.namespace
  enabled : value label_check_proxy q.labels ≡ "enabled"
  of_class : value label_class q.labels ≡ class
  named : value label_claim q.labels ≡ name
  mark :
      value annotation_injected_proxy q.annotations
      ≡ value annotation_injected_proxy pod.annotations

convert_with-ForProxy :
    (class name : String) (pod : Pod)
    → (value deprecated_db_secret_path pod.annotations == "") ≡ false
    → ForProxy class name pod (convert_with class name pod)
unfolding convert_with remove_deprecated
convert_with-ForProxy class name pod path =
    let start : Converting = (pod, []) in
    let c = convert_exec class name start in
    let d = convert_proxy class name c in
    let exec = exec-annotations class name start in
    let (notes, space) = proxy-kept class name c in
    let (labels, told) = tell-labels class name d.1 (remove_deprecated d.0) in
    let there : (value deprecated_db_secret_path c.0.annotations == "") ≡ false = rw exec path in
    let (a, b, e) = proxy_labels class name c there in
    record {
      space = told ∙ space ∙ exec-namespace class name start;
      enabled = rw labels a;
      of_class = rw labels b;
      named = rw labels e;
      mark = mark-kept d.1 d.0 ∙ ap (value annotation_injected_proxy) (notes ∙ exec);
    }

has_container-last :
    (cs : List Container) (c : Container) → has_container c.name (cs ++ (c ∷ [])) ≡ true
unfolding has_container
has_container-last [] c = rw (eq_refl c.name) refl
has_container-last (d ∷ cs) c = rw (has_container-last cs c) (ground arith)

has_volume-last : (vs : List Volume) (v : Volume) → has_volume v.name (vs ++ (v ∷ [])) ≡ true
unfolding has_volume
has_volume-last [] v = rw (eq_refl v.name) refl
has_volume-last (u ∷ vs) v = rw (has_volume-last vs v) (ground arith)

with_proxy-has :
    (pod : Pod) (secret image : String) (ready live : Bool)
    → let r = mutate_pod_proxy pod secret image ready live in
      (has_container container_name_proxy r.containers ≡ true)
      × (has_volume volume_name_proxy r.volumes ≡ true)
unfolding mutate_pod_proxy add_container add_volume proxy_container
with_proxy-has pod secret image ready live =
    let c : Container = proxy_container image ready live in
    let v : Volume = record { name = volume_name_proxy; secret = some secret } in
    ground (arith, has_container-last pod.containers c, has_volume-last pod.volumes v)

named_owner-ne : (found name : String) → named_owner found ≡ ok name → (name == "") ≡ false
named_owner-ne found name h = elim (Bool-cases (found == "")) [
  | inl p ↦ cc (rw p at h)
  | inr p ↦ subst (λ n. (n == "") ≡ false) (ground (arith, rw p at h)) p
]

module _ (reader : Reader) (class : String) (p : PodAnnotator) where
  owner-ne :
      (namespace name : String) (pod : Pod)
      → get_claim_name reader class namespace (secret_name pod) ≡ ok name
      → (name == "") ≡ false
  unfolding get_claim_name
  owner-ne namespace name pod h =
      let (owners, _, e) =
        bind-ok (reader.get_owners namespace (secret_name pod))
          (λ owners. named_owner (owner_name owners "")) h in
      named_owner-ne (owner_name owners "") name e

  -- A pod with the deprecated annotation for dbproxy has a container and a volume with the names of
  -- dbproxy's once it was converted and Default of the same class handled it, if the claim that owns
  -- the secret is there and names a secret, and the pod is not marked as injected.
  pub converted-Injected :
      (pod q : Pod) (name secret : String)
      → handle reader class pod ≡ ok (patched q)
      → (value deprecated_db_secret_path pod.annotations == "") ≡ false
      → (value annotation_injected_proxy pod.annotations == "true") ≡ false
      → get_claim_name reader class pod.namespace (secret_name pod) ≡ ok name
      → find_claim reader pod.namespace name ≡ ok tt
      → secret_of reader pod.namespace name ≡ ok secret
      → p.class ≡ class
      → (r : Pod) × (default reader p q ≡ ok r)
        × (has_container container_name_proxy r.containers ≡ true)
        × (has_volume volume_name_proxy r.volumes ≡ true)
  unfolding inject
  converted-Injected pod q name secret h path fresh owner found with_secret of_class =
      let (owner_of, by, e) =
        converted reader class pod q ((handle-patched reader class pod q h).1) in
      let same : owner_of ≡ name = cc in
      let for : ForProxy class name pod q =
        subst (λ n. ForProxy class n pod q) same
          (subst (ForProxy class owner_of pod) (sym e)
            (convert_with-ForProxy class owner_of pod path)) in
      let reaches : Reaches reader p q secret = record {
        claimed = rw for.named (owner-ne pod.namespace name pod owner);
        found = rw (for.space, for.named) found;
        of_class = rw (for.of_class, of_class) (eq_refl class);
        with_secret = rw (for.space, for.named) with_secret;
      } in
      let due : proxy_is_due q ≡ true = rw (for.enabled, for.mark, fresh) refl in
      let (has_c, has_v) =
        with_proxy-has q secret p.db_proxy_img p.enable_ready p.enable_liveness in
      (
        with_proxy reader p q secret,
        default_reached reader p q secret reaches ∙ rw due refl,
        has_c,
        has_v,
      )
