-- ===== src/Gcp/Connected.antt =====
-- The secret that manageCloudHostGCP of pkg/databaseclaim/gcpprovider.go leaves behind, which
-- GetMasterCredsDeprecated of pkg/kctlutils/kctl.go then reads.
use db_controller.Prelude.{
  String, Bool, true, false, not, none, some, Map, insert, lookup-insert, ◌≡◌, ◌≢◌, refl, sym, ap,
  subst, ◌∙◌, ◌==◌, if◌then◌else◌, arith,
}
use db_controller.Api.Claim.{postgres}
use db_controller.Api.Error.{Err, Result, ok, err}
use db_controller.Aws.{get_service_namespace}
use db_controller.Aws.Kept.Serve.{then-Same}
use db_controller.Cluster.{Context, Handler, call, here}
use db_controller.Exec.Chain.{chain-ok}
use db_controller.Exec.{Exec, ask, fail, lift, pure, ◌>>=◌, ◌>>◌}
use db_controller.Gcp.{Alloy, AlloyInstance}
use db_controller.Gcp.Connection.{
  conn_info, create_secret_with_conn_info, endpoint_of, manage_network_record,
}
use db_controller.Gcp.Hosts.{
  not_postgres, connect_if_ready, manage_cloud_host_gcp, manage_db_cluster_gcp,
  manage_postgres_db_instance_gcp,
}
use db_controller.Gcp.Kept.{cluster-Same, instance-Same}
use db_controller.HostName.{get_dynamic_host_name}
use db_controller.Reconciler.{Reconciler}
use db_controller.RequestInfo.{RequestInfo}
use db_controller.Secrets.{Data, data_at}
use db_controller.Secrets.Stored.{SecretStore}

-- the data of a secret with which the master of an instance is reached
abbrev pub ReachesInstance : String → AlloyInstance → Map String → Type 0
ReachesInstance username i m =
    (endpoint_of i ≡ ok (data_at "endpoint" (some m)))
    × (data_at "username" (some m) ≡ username)
    × (data_at "password" (some m) ≡ data_at "attribute.initial_user.0.password" (some m))
    × (data_at "port" (some m) ≡ "5432")

conn_info-Reaches :
    (username endpoint : String) (i : AlloyInstance) (d : Data) (m : Map String)
    → endpoint_of i ≡ ok endpoint
    → conn_info username endpoint d ≡ ok m
    → ReachesInstance username i m
unfolding conn_info
conn_info-Reaches username endpoint i none m e h = cc
conn_info-Reaches username endpoint i (some old) m e h =
    let password = data_at "attribute.initial_user.0.password" (some old) in
    let named = insert "username" username old in
    let full =
      insert "port" "5432" (insert "endpoint" endpoint (insert "password" password named)) in
    let same : full ≡ m = cc in
    subst (ReachesInstance username i) same (
      rw lookup-insert (rw lookup-insert e),
      rw lookup-insert (rw lookup-insert (rw lookup-insert (rw lookup-insert refl))),
      (simp lookup-insert),
      rw lookup-insert refl,
    )

service_namespace-eq :
    {W : Type 0} (r : Reconciler W) (namespace : String)
    → get_service_namespace r ≡ ok namespace
    → namespace ≡ r.namespace
unfolding get_service_namespace
service_namespace-eq r namespace h = ground (arith, h)

err-ne : {A : Type 0} {e : Err} {a : A} → err e ≢ ok a
err-ne h = cc

if-ok :
    {S A : Type 0} (b : Bool) (m k : Exec S A) (s : S) {a : A}
    → ((e : (m s).0 ≡ ok a) → ⊥)
    → ((if b then m else k) s).0 ≡ ok a
    → ((if b then m else k) s ≡ k s) × ((k s).0 ≡ ok a)
if-ok true m k s bad h = absurd (bad h)
if-ok false m k s bad h = (refl, h)

module _ {W : Type 0} (r : Reconciler W) (x : Alloy W) (store : SecretStore r.cluster) where
  -- the secret of a host, and the instance that it leads to
  abbrev pub IsConnected : String → String → W → W → Type 0
  IsConnected host username before after =
      (i : AlloyInstance) × (m : Map String) × (x.get_instance host before ≡ ok i)
      × (r.cluster.get_secret r.namespace host after ≡ ok (some m))
      × ReachesInstance username i m

  written :
      (username host : String) (w : W)
      → (create_secret_with_conn_info r x username host w).0 ≡ ok tt
      → IsConnected host username w (create_secret_with_conn_info r x username host w).1
  unfolding create_secret_with_conn_info
  written username host w h =
      let store_in : String → Map String → Exec W (Unit {0}) =
        λ namespace m. r.cluster.update_secret namespace host (some m) in
      let with_endpoint : String → Data → String → Exec W (Unit {0}) =
        λ namespace d endpoint. lift (conn_info username endpoint d) >>= store_in namespace in
      let with_data : AlloyInstance → String → Data → Exec W (Unit {0}) =
        λ i namespace d. lift (endpoint_of i) >>= with_endpoint namespace d in
      let with_namespace : AlloyInstance → String → Exec W (Unit {0}) =
        λ i namespace. ask (r.cluster.get_secret namespace host) >>= with_data i namespace in
      let with_instance : AlloyInstance → Exec W (Unit {0}) =
        λ i. lift (get_service_namespace r) >>= with_namespace i in
      let (i, found, h1, e1) = chain-ok (ask (x.get_instance host)) with_instance w h in
      let (namespace, named, h2, e2) =
        chain-ok (lift (get_service_namespace r)) (with_namespace i) w h1 in
      let (d, _, h3, e3) =
        chain-ok (ask (r.cluster.get_secret namespace host)) (with_data i namespace) w h2 in
      let (endpoint, reached, h4, e4) =
        chain-ok (lift (endpoint_of i)) (with_endpoint namespace d) w h3 in
      let (m, made, h5, e5) =
        chain-ok (lift (conn_info username endpoint d)) (store_in namespace) w h4 in
      let after = e1 ∙ e2 ∙ e3 ∙ e4 ∙ e5 in
      let same : namespace ≡ r.namespace = service_namespace-eq r namespace named in
      let kept = store.updated namespace host (some m) w h5 in
      (
        i,
        m,
        found,
        subst
            (λ n.
              r.cluster.get_secret n host (create_secret_with_conn_info r x username host w).1
              ≡ ok (some m))
            same (ap (λ t. r.cluster.get_secret namespace host t.1) after ∙ kept),
        conn_info-Reaches username endpoint i d m reached made,
      )

  connected :
      (host : String) (ready : Bool) (s : Context W)
      → (connect_if_ready r x host ready s).0 ≡ ok true
      → (before : W) × IsConnected host s.info.host_params.master_username before
          (connect_if_ready r x host ready s).1.world
  unfolding connect_if_ready
  connected host false s h = cc
  connected host true s h =
      let network : Handler W (Unit {0}) = call (manage_network_record r x host) in
      let secret : Handler W (Unit {0}) =
        here
          (λ t. call (create_secret_with_conn_info r x t.info.host_params.master_username host)) in
      let (_, h1, _, e1) = chain-ok (network >> secret) (λ _. pure true) s h in
      let (_, _, h2, e2) = chain-ok network (λ _. secret) s h1 in
      let before = (network s).1.world in
      let username = s.info.host_params.master_username in
      let there = written username host before h2 in
      let after : (connect_if_ready r x host true s).1 ≡ (secret (network s).1).1 =
        ap (λ t. t.1) e1 ∙ ap (λ t. t.1) e2 in
      (
        before,
        subst (λ (t : Context W). IsConnected host username before t.world) (sym after) there,
      )

  -- the same of the handlers' states, for the master of the request
  abbrev pub Connects : String → Context W → Context W → Type 0
  Connects host s t =
      (before : W) × IsConnected host s.info.host_params.master_username before t.world

  abbrev provide : String → Handler W Bool
  provide host =
      manage_db_cluster_gcp r x host
      >> manage_postgres_db_instance_gcp r x host
      >>= connect_if_ready r x host

  provided :
      (host : String) (s : Context W)
      → (provide host s).0 ≡ ok true
      → Connects host s (provide host s).1
  provided host s h =
      let hosts = manage_db_cluster_gcp r x host >> manage_postgres_db_instance_gcp r x host in
      let (ready, _, h1, e1) = chain-ok hosts (connect_if_ready r x host) s h in
      let t = (hosts s).1 in
      let same : t.info ≡ s.info =
        ap (λ v. v.1)
          (then-Same (manage_db_cluster_gcp r x host)
            (λ _. manage_postgres_db_instance_gcp r x host) (cluster-Same r x host)
            (λ _. instance-Same r x host) s) in
      let there = connected host ready t h1 in
      subst (λ (u : Result Bool × Context W). Connects host s u.1) (sym e1)
        (subst
          (λ (i : RequestInfo).
            (before : W) × IsConnected host i.host_params.master_username before
              (connect_if_ready r x host ready t).1.world)
          same there)

  -- Once the work on a host of GCP reports that it is ready, the secret of the host holds the
  -- endpoint of its instance, the name of the master and the initial password, at the port 5432,
  -- if a secret that is updated without an error is read back.
  pub manage_cloud_host_gcp-Connected :
      (s : Context W)
      → (manage_cloud_host_gcp r x s).0 ≡ ok true
      → Connects
          (get_dynamic_host_name r.checksum r.config s.info.host_params s.claim)
          s
          (manage_cloud_host_gcp r x s).1
  unfolding manage_cloud_host_gcp
  manage_cloud_host_gcp-Connected s h =
      let host = get_dynamic_host_name r.checksum r.config s.info.host_params s.claim in
      let other : Handler W Bool = fail (not_postgres r x s.claim.spec.db_type) in
      let p = if-ok (not (s.claim.spec.db_type == postgres)) other (provide host) s err-ne h in
      subst (λ (t : Result Bool × Context W). Connects host s t.1) (sym p.0) (provided host s p.1)
