-- ===== src/Aws/Kept.antt =====
-- What the work on AWS hosts, in pkg/databaseclaim/awsprovider.go, leaves of a claim and its request.
pub mod Serve
mod Steps
use db_controller.Prelude.{
  ℕ, String, Bool, true, false, ◌&&◌, Option, none, some, ◌==◌, ◌<>◌, if◌then◌else◌, ◌≡◌, refl,
  arith, List,
}
use db_controller.Api.Claim.{ClaimStatus, postgres, aurora_postgres}
use db_controller.Api.Error.{Err, Result, ok, err, panic, is_not_found}
use db_controller.Cluster.{Context, Handler, call, here}
use db_controller.Config.{get_cloud, get_multi_az_enabled}
use db_controller.Exec.Frame.{Keeps, attempt-Keeps, bind-Keeps, if-Keeps}
use db_controller.Exec.{Exec, attempt, pure, fail, lift, ◌>>=◌, ◌>>◌}
use db_controller.HostName.{get_dynamic_host_name}
use db_controller.Mode.{ModeEnum}
use db_controller.Reconciler.{Reconciler}
use db_controller.RequestInfo.{RequestInfo}
use db_controller.Tags.{AwsTag, operational_status_key, replace_or_add_tag}
use db_controller.Aws.{
  DbCluster, Instance, Crossplane, set_backup_policy, db_tags, get_service_namespace,
}
use db_controller.Aws.Hosts.{
  create_cluster, cluster_window, manage_db_cluster_aws, manage_aurora_db_instances,
  manage_cloud_host_aws, invalid_type,
}
use db_controller.Aws.Instances.{
  or_create, unless_deleted, instance_tags, create_postgres_instance, create_aurora_instance,
  manage_postgres_db_instance_aws, manage_aurora_instance_named, manage_aurora_db_instance,
  update_aurora_instance,
}
use db_controller.Aws.ParamGroups.{
  manage_cluster_param_group, manage_postgres_param_group, manage_aurora_postgres_param_group,
}
use db_controller.Aws.Ready.{resource_readiness}
use db_controller.Aws.Updates.{with_window, update_db_cluster_aws, update_db_instance}
use db_controller.Aws.Kept.Steps.{
  update_cluster-Same, update_instance-Same, create_postgres-Same, create_aurora-Same,
  create_cluster-Same,
}
use db_controller.Aws.Kept.Serve.{Same, status_and_request, then-Same, serve-Same}

module _ {W : Type 0} (r : Reconciler W) (x : Crossplane W) where
  postgres-Same :
      (name : String) (mode : ModeEnum) → Same (manage_postgres_db_instance_aws r x name mode)
  unfolding manage_postgres_db_instance_aws
  postgres-Same name mode =
      let named : Handler W String = lift (get_service_namespace r) in
      let group : Handler W String =
        here (λ s. call (manage_postgres_param_group r x s.info s.claim)) in
      let create = create_postgres_instance r x mode name in
      let ready : Instance → Handler W Bool =
        λ i. lift (resource_readiness "rds.instance" name i.conditions) in
      let settle : Instance → Handler W Bool = λ i. update_db_instance r x i >> ready i in
      let serve : String → String → Handler W Bool = λ namespace g.
        set_backup_policy r
        >> here (λ s. or_create (create namespace g) (x.get_instance name s.world))
        >>= λ i. unless_deleted "instance" name i.deletion_timestamp (settle i) in
      then-Same named (λ namespace. group >>= serve namespace) (λ _. refl)
        (λ namespace.
          then-Same group (serve namespace) (λ _. refl)
            (λ g.
              serve-Same r (create namespace g) (x.get_instance name) "instance" name
                (λ i. i.deletion_timestamp) settle (create_postgres-Same r x mode name namespace g)
                (λ i.
                  then-Same (update_db_instance r x i) (λ _. ready i) (update_instance-Same r x i)
                    (λ _ _. refl))))

  aurora_update-Same : (name : String) (i : Instance) → Same (update_aurora_instance r x name i)
  aurora_update-Same name i s = grind (arith, update_instance-Same r x i)

  aurora_instance-Same :
      (name cluster : String) → Same (manage_aurora_instance_named r x name cluster)
  unfolding manage_aurora_instance_named
  aurora_instance-Same name cluster =
      let group : Handler W String =
        here (λ s. call (manage_aurora_postgres_param_group r x s.info s.claim)) in
      let create = create_aurora_instance r x name cluster in
      let ready : Instance → Handler W Bool =
        λ i. lift (resource_readiness "aurora.instance" name i.conditions) in
      let update : Instance → Handler W Bool = λ i. here (λ s.
        update_aurora_instance r x name
          (with_window s.claim.spec.preferred_maintenance_window i)) in
      let settle : Instance → Handler W Bool = λ i. update i >> ready i in
      let serve : String → Handler W Bool = λ g.
        set_backup_policy r
        >> here (λ s. or_create (create g) (x.get_instance name s.world))
        >>= λ i. unless_deleted "instance" name i.deletion_timestamp (settle i) in
      then-Same group serve (λ _. refl)
        (λ g.
          serve-Same r (create g) (x.get_instance name) "instance" name (λ i. i.deletion_timestamp)
            settle (create_aurora-Same r x name cluster g)
            (λ i.
              then-Same (update i) (λ _. ready i)
                (λ s.
                  aurora_update-Same name (with_window s.claim.spec.preferred_maintenance_window i)
                    s)
                (λ _ _. refl)))

  cluster-Same : (name : String) (mode : ModeEnum) → Same (manage_db_cluster_aws r x name mode)
  unfolding manage_db_cluster_aws
  cluster-Same name mode =
      let named : Handler W String = lift (get_service_namespace r) in
      let group : Handler W String =
        here (λ s. call (manage_cluster_param_group r x s.info s.claim)) in
      let create = create_cluster r x mode name in
      let ready : DbCluster → Handler W Bool =
        λ i. lift (resource_readiness "aurora.cluster" name i.conditions) in
      let update : DbCluster → Handler W Bool = λ i. here (λ s.
        update_db_cluster_aws r x (cluster_window s.claim.spec.preferred_maintenance_window i)) in
      let settle : DbCluster → Handler W Bool = λ i. update i >> ready i in
      let serve : String → String → Handler W Bool = λ g namespace.
        set_backup_policy r
        >> here (λ s. or_create (create namespace g) (x.get_db_cluster name s.world))
        >>= λ i. unless_deleted "cluster" name i.deletion_timestamp (settle i) in
      then-Same group (λ g. named >>= serve g) (λ _. refl)
        (λ g.
          then-Same named (serve g) (λ _. refl)
            (λ namespace.
              serve-Same r (create namespace g) (x.get_db_cluster name) "cluster" name
                (λ i. i.deletion_timestamp) settle (create_cluster-Same r x mode name namespace g)
                (λ i.
                  then-Same (update i) (λ _. ready i)
                    (λ s.
                      update_cluster-Same r x
                        (cluster_window s.claim.spec.preferred_maintenance_window i) s)
                    (λ _ _. refl))))

  instance-Same : (name : String) (b : Bool) → Same (manage_aurora_db_instance r x name b)
  unfolding manage_aurora_db_instance
  instance-Same name b = aurora_instance-Same (if b then name <> "-2" else name) name

  aurora-Same : (name : String) (mode : ModeEnum) → Same (manage_aurora_db_instances r x name mode)
  unfolding manage_aurora_db_instances
  aurora-Same name mode =
      let is_aws = get_cloud r.config == "aws" in
      let cluster : Handler W Bool =
        if is_aws then manage_db_cluster_aws r x name mode else pure true in
      let one : Handler W Bool = manage_aurora_db_instance r x name false in
      let two : Handler W Bool =
        if get_multi_az_enabled r.config
        then manage_aurora_db_instance r x name true
        else pure true in
      let both : Bool → Handler W Bool = λ a. two >>= λ b. pure (a && b) in
      then-Same (cluster >> one) both
        (then-Same cluster (λ _. one)
          (if-Keeps status_and_request is_aws (manage_db_cluster_aws r x name mode) (pure true)
            (cluster-Same name mode) (λ _. refl))
          (λ _. instance-Same name false))
        (λ a.
          then-Same two (λ b. pure (a && b))
            (if-Keeps status_and_request (get_multi_az_enabled r.config)
              (manage_aurora_db_instance r x name true) (pure true) (instance-Same name true)
              (λ _. refl))
            (λ _ _. refl))

  -- The work on the hosts of a database on AWS, whatever it ends in, leaves the status of the claim
  -- and the request as they are.
  pub manage_cloud_host_aws-Kept :
      (mode : ModeEnum) (s : Context W)
      → status_and_request (manage_cloud_host_aws r x mode s).1 ≡ status_and_request s
  unfolding manage_cloud_host_aws
  manage_cloud_host_aws-Kept mode s =
      let name = get_dynamic_host_name r.checksum r.config s.info.host_params s.claim in
      let type = s.claim.spec.db_type in
      let other : Handler W Bool =
        if type == postgres
        then manage_postgres_db_instance_aws r x name mode
        else fail (invalid_type r x type) in
      if-Keeps status_and_request (type == aurora_postgres)
        (manage_aurora_db_instances r x name mode) other (aurora-Same name mode)
        (if-Keeps status_and_request (type == postgres)
          (manage_postgres_db_instance_aws r x name mode) (fail (invalid_type r x type))
          (postgres-Same name mode) (λ _. refl))
        s
