-- ===== src/RoleController/Deletion.antt =====
-- deleteWorkflow and deleteExternalResources of pkg/roleclaim/roleclaim.go.
use db_controller.Prelude.{
  String, Bool, true, false, some, List, [], ◌∷◌, ◌++◌, is_some, ◌<>◌, if◌then◌else◌,
}
use db_controller.Api.Connection.{ConnectionInfo}
use db_controller.DbClient.Existing.{existing_db_client}
use db_controller.DbClient.Users.{delete_user}
use db_controller.DbUser.{suffix_a, suffix_b}
use db_controller.Exec.{pure, attempt, lift, modify, ◌>>=◌, ◌>>◌}
use db_controller.Reconcile.{contains_finalizer, remove_finalizer}
use db_controller.RoleController.{
  RoleReconciler, RoleHandler, call, here, get_source_db_claim, resource_connection,
  set_db_claim_req_info,
}

abbrev pub role_finalizer : String
role_finalizer = "dbroleclaims.persistance.atlas.infoblox.com/finalizer"

module _ {W : Type 0} (r : RoleReconciler W) where
  open r use {cluster, sql}

  -- the two users of a role claim are dropped
  unfoldable pub drop_users : ConnectionInfo → String → RoleHandler W (Unit {0})
  unfolding existing_db_client delete_user
  drop_users c name =
      attempt (call (existing_db_client sql (some c))) (λ _. pure tt)
        (λ client. do
          call (delete_user sql client c.database_name (name <> ("_user" <> suffix_a)) c.username)
          call (delete_user sql client c.database_name (name <> ("_user" <> suffix_b)) c.username))

  -- deleteExternalResources: without a connection the database counts as deleted
  unfoldable pub delete_external_resources : RoleHandler W (Unit {0})
  unfolding get_source_db_claim set_db_claim_req_info drop_users
  delete_external_resources = do
    source ← get_source_db_claim r
    host ← lift (set_db_claim_req_info r source)
    here (λ s.
        drop_users (resource_connection r (cluster.get_secret r.namespace host s.world) source)
          s.claim.name)

  abbrev update_finalizers : (List String → List String) → RoleHandler W (Unit {0})
  update_finalizers f =
      modify (λ s. record s { claim = record (s.claim) { finalizers = f s.claim.finalizers } })
      >> here (λ s. call (cluster.update_role_claim s.claim))

  -- deleteWorkflow: whether the claim is being deleted
  unfoldable pub delete_workflow : RoleHandler W Bool
  unfolding contains_finalizer remove_finalizer delete_external_resources
  delete_workflow = here (λ s.
      let has_finalizer = contains_finalizer role_finalizer s.claim.finalizers in
      if is_some s.claim.deletion_timestamp
      then ((if has_finalizer
            then delete_external_resources >> update_finalizers (remove_finalizer role_finalizer)
            else pure tt)
          >> pure true)
      else ((if has_finalizer then pure tt else update_finalizers (λ fs. fs ++ role_finalizer ∷ []))
          >> pure false))
