-- ===== src/Aws/Kept/Steps.antt =====
-- The steps of the work on AWS hosts, and what they leave of a claim and its request.
use db_controller.Prelude.{String, refl, arith}
use db_controller.Exec.Frame.{bind-Keeps}
use db_controller.Exec.{lift}
use db_controller.Mode.{ModeEnum}
use db_controller.Reconciler.{Reconciler}
use db_controller.Tags.{operational_status_key, replace_or_add_tag}
use db_controller.Aws.{DbCluster, Instance, Crossplane, set_backup_policy, db_tags}
use db_controller.Aws.Hosts.{create_cluster}
use db_controller.Aws.Instances.{instance_tags, create_postgres_instance, create_aurora_instance}
use db_controller.Aws.Updates.{update_db_cluster_aws, update_db_instance}
use db_controller.Aws.Kept.Serve.{Same, status_and_request}

module _ {W : Type 0} (r : Reconciler W) (x : Crossplane W) where
  db_tags-Same : Same (db_tags r x)
  unfolding db_tags
  db_tags-Same s = refl

  instance_tags-Same : Same (instance_tags r x)
  unfolding instance_tags
  instance_tags-Same =
      bind-Keeps status_and_request (db_tags r x)
        (λ tags. lift (replace_or_add_tag tags operational_status_key "active")) db_tags-Same
        (λ _ _. refl)

  pub update_cluster-Same : (old : DbCluster) → Same (update_db_cluster_aws r x old)
  unfolding update_db_cluster_aws set_backup_policy db_tags
  update_cluster-Same old s = ground arith

  pub update_instance-Same : (old : Instance) → Same (update_db_instance r x old)
  unfolding update_db_instance set_backup_policy db_tags
  update_instance-Same old s = ground arith

  pub create_postgres-Same :
      (mode : ModeEnum) (name namespace group : String)
      → Same (create_postgres_instance r x mode name namespace group)
  unfolding create_postgres_instance
  create_postgres-Same mode name namespace group s = grind (arith, instance_tags-Same)

  pub create_aurora-Same :
      (name cluster group : String) → Same (create_aurora_instance r x name cluster group)
  unfolding create_aurora_instance
  create_aurora-Same name cluster group s = grind (arith, instance_tags-Same)

  pub create_cluster-Same :
      (mode : ModeEnum) (name namespace group : String)
      → Same (create_cluster r x mode name namespace group)
  unfolding create_cluster
  create_cluster-Same mode name namespace group s = grind (arith, db_tags-Same)
