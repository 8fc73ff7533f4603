-- ===== src/Gcp/Kept.antt =====
-- What the work on GCP hosts, in pkg/databaseclaim/gcpprovider.go, leaves of a claim and its request.
use db_controller.Prelude.{String, Bool, true, false, refl, arith}
use db_controller.Aws.{get_service_namespace, set_backup_policy}
use db_controller.Aws.Instances.{or_create, unless_deleted}
use db_controller.Aws.Kept.Serve.{Same, then-Same, serve-Same}
use db_controller.Aws.Ready.{resource_readiness}
use db_controller.Cluster.{Handler, here}
use db_controller.Exec.{lift, ◌>>=◌, ◌>>◌}
use db_controller.Gcp.{Alloy, AlloyCluster, AlloyInstance}
use db_controller.Gcp.Hosts.{
  connect_if_ready, create_alloy_cluster, create_alloy_instance, manage_db_cluster_gcp,
  manage_postgres_db_instance_gcp, update_db_cluster_gcp,
}
use db_controller.Reconciler.{Reconciler}

module _ {W : Type 0} (r : Reconciler W) (x : Alloy W) where
  create_cluster-Same : (name namespace : String) → Same (create_alloy_cluster r x name namespace)
  unfolding create_alloy_cluster
  create_cluster-Same name namespace s = ground arith

  create_instance-Same : (name namespace : String) → Same (create_alloy_instance r x name namespace)
  unfolding create_alloy_instance
  create_instance-Same name namespace s = ground arith

  update_cluster-Same : (old : AlloyCluster) → Same (update_db_cluster_gcp r x old)
  unfolding update_db_cluster_gcp set_backup_policy
  update_cluster-Same old s = ground arith

  pub cluster-Same : (name : String) → Same (manage_db_cluster_gcp r x name)
  unfolding manage_db_cluster_gcp
  cluster-Same name =
      let named : Handler W String = lift (get_service_namespace r) in
      let ready : AlloyCluster → Handler W Bool =
        λ i. lift (resource_readiness "alloydb.cluster" name i.conditions) in
      let settle : AlloyCluster → Handler W Bool = λ i. update_db_cluster_gcp r x i >> ready i in
      let create = create_alloy_cluster r x name in
      let serve : String → Handler W Bool = λ namespace.
        set_backup_policy r
        >> here (λ s. or_create (create namespace) (x.get_cluster name s.world))
        >>= λ i. unless_deleted "cluster" name i.deletion_timestamp (settle i) in
      then-Same named serve (λ _. refl)
        (λ namespace.
          serve-Same r (create namespace) (x.get_cluster name) "cluster" name
            (λ i. i.deletion_timestamp) settle (create_cluster-Same name namespace)
            (λ i.
              then-Same (update_db_cluster_gcp r x i) (λ _. ready i) (update_cluster-Same i)
                (λ _ _. refl)))

  pub instance-Same : (name : String) → Same (manage_postgres_db_instance_gcp r x name)
  unfolding manage_postgres_db_instance_gcp
  instance-Same name =
      let named : Handler W String = lift (get_service_namespace r) in
      let ready : AlloyInstance → Handler W Bool =
        λ i. lift (resource_readiness "alloydb.instance" name i.conditions) in
      let create = create_alloy_instance r x name in
      let serve : String → Handler W Bool = λ namespace.
        set_backup_policy r
        >> here (λ s. or_create (create namespace) (x.get_instance name s.world))
        >>= λ i. unless_deleted "instance" name i.deletion_timestamp (ready i) in
      then-Same named serve (λ _. refl)
        (λ namespace.
          serve-Same r (create namespace) (x.get_instance name) "instance" name
            (λ i. i.deletion_timestamp) ready (create_instance-Same name namespace) (λ _ _. refl))

  pub connect-Same : (name : String) (b : Bool) → Same (connect_if_ready r x name b)
  unfolding connect_if_ready
  connect-Same name true s = ground arith
  connect-Same name false s = refl
