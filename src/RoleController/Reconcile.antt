-- ===== src/RoleController/Reconcile.antt =====
-- Reconcile of pkg/roleclaim/roleclaim.go.
use db_controller.Prelude.{
  ℕ, ltz, since, String, Bool, true, false, ◌||◌, Option, none, some, List, [], ◌∷◌, Map, insert,
  has_suffix, ◌==◌, ◌<>◌, if◌then◌else◌,
}
use db_controller.Api.Claim.{DatabaseClaim}
use db_controller.Api.Connection.{ConnectionInfo}
use db_controller.Api.Error.{ok, message, is_not_found}
use db_controller.Api.RoleClaim.{DbRoleClaim, RoleStatus}
use db_controller.Config.{get_password_rotation_period, is_class_permitted}
use db_controller.DbClient.Connect.{Client}
use db_controller.DbClient.Databases.{find_schema, make_schema}
use db_controller.DbClient.Existing.{existing_db_client}
use db_controller.DbClient.Roles.{
  assign_role_to_user, create_admin_role, create_read_only_role, create_regular_role, find_role,
  get_user_roles, revoke_access_to_role,
}
use db_controller.DbClient.Users.{create_user_if_missing, update_password}
use db_controller.DbUser.{new_db_user, next_user}
use db_controller.Exec.{Exec, pure, fail, lift, attempt, rescue, ◌>>=◌, ◌>>◌}
use db_controller.HostParams.{to_lower}
use db_controller.Passwords.{generate_password}
use db_controller.RequestInfo.{deref}
use db_controller.RoleController.{
  RoleReconciler, RoleHandler, call, here, set_role_status, manage_error, manage_success,
  update_client_status, get_source_db_claim, get_source_secret, set_db_claim_req_info,
  read_resource_secret,
}
use db_controller.RoleController.Deletion.{delete_workflow}
use db_controller.RoleController.Secret.{copy_source_secret}
use db_controller.Secrets.{Data}
use db_controller.StatusManager.{Outcome, no_requeue}

-- whether a schema or a role of the claim has no name
unfoldable pub missing_param : Map String → Bool
missing_param [] = false
missing_param ((schema, role) ∷ rest) = schema == "" || role == "" || missing_param rest

-- initStatusValues, of maps that are never nil
unfoldable pub init_status_values : DbRoleClaim → RoleStatus → RoleStatus
init_status_values claim st = record st {
  username = if st.username == "" then claim.name else st.username;
}

-- the names of a schema and of its role in the database
abbrev pub schema_name : String → String
schema_name schema = to_lower schema

abbrev pub role_name : String → String → String
role_name schema role = to_lower (to_lower schema <> ("_" <> to_lower role))

module _ {W : Type 0} (r : RoleReconciler W) (client : Client) where
  open r use {sql, passwords, config}

  -- createSchema
  unfoldable pub create_schema_if_missing : String → Exec W (Unit {0})
  unfolding find_schema make_schema
  create_schema_if_missing schema = do
    exists ← find_schema sql client schema
    (if exists then pure tt else (make_schema sql client schema >> pure tt))

  -- createRole
  unfoldable pub create_role_of : String → String → String → Exec W (Unit {0})
  unfolding find_role create_admin_role create_regular_role create_read_only_role to_lower
      has_suffix
  create_role_of role database schema =
      let d = to_lower database in
      let n = to_lower role in
      let s = to_lower schema in
      find_role sql client role >>= λ exists.
      if exists
      then pure tt
      else if has_suffix role "admin"
      then create_admin_role sql client d n s >> pure tt
      else if has_suffix role "regular"
      then create_regular_role sql client d n s >> pure tt
      else if has_suffix role "readonly"
      then create_read_only_role sql client d n s >> pure tt
      else pure tt

  -- the loop that makes schemas and roles
  unfoldable pub create_schemas : String → Map String → RoleHandler W (Unit {0})
  unfolding create_schema_if_missing create_role_of insert to_lower
  create_schemas database [] = pure tt
  create_schemas database ((schema, role) ∷ rest) = do
    call (create_schema_if_missing (schema_name schema))
    set_role_status
        (λ st. record st { schema_status = insert (schema_name schema) "valid" st.schema_status })
    call (create_role_of (role_name schema role) database (schema_name schema))
    set_role_status
        (λ st. record st { role_status = insert (role_name schema role) "valid" st.role_status })
    create_schemas database rest

  -- the loops that take and give the roles of a user
  unfoldable pub revoke_all : String → List String → Exec W (Unit {0})
  unfolding revoke_access_to_role
  revoke_all user [] = pure tt
  revoke_all user (role ∷ roles) =
      revoke_access_to_role sql client user role >> revoke_all user roles

  unfoldable pub assign_all : String → Map String → Exec W (Unit {0})
  unfolding assign_role_to_user to_lower
  assign_all user [] = pure tt
  assign_all user ((schema, role) ∷ rest) =
      assign_role_to_user sql client user (role_name schema role) >> assign_all user rest

  -- a user gets the roles of a claim, and no role beside them
  unfoldable pub give_roles : String → Map String → Exec W (Unit {0})
  unfolding get_user_roles revoke_all assign_all
  give_roles user map =
      get_user_roles sql client user >>= λ roles. revoke_all user roles >> assign_all user map

  -- a user with a new password, which is returned
  unfoldable pub renew_user : String → RoleHandler W String
  unfolding generate_password create_user_if_missing update_password
  renew_user user = do
    password ← call (generate_password passwords config)
    set_role_status (λ st. record st { username = user })
    created ← call (create_user_if_missing sql client user "" password)
    (if created then pure tt else call (update_password sql client user password))
    pure password

  -- the next user of the claim, with a new password and the roles of the claim
  unfoldable pub rotate_user : DbRoleClaim → RoleHandler W String
  unfolding renew_user give_roles to_lower new_db_user next_user
  rotate_user claim =
      let user = next_user (new_db_user (to_lower claim.name <> "_user")) claim.status.username in
      renew_user user >>= λ password.
      call (give_roles user claim.spec.schema_role_map) >> pure password

module _ {W : Type 0} (r : RoleReconciler W) where
  open r use {cluster, sql, config}

  -- whether the users are to be made, or rotated, at a time
  abbrev pub is_due : ℕ → Option ℕ → Bool
  is_due time none = true
  is_due time (some t) = ltz (get_password_rotation_period config) (since time t)

  abbrev set_times : ℕ → RoleHandler W (Unit {0})
  set_times time =
      set_role_status
        (λ st. record st { secret_updated_at = some time; schemas_roles_updated_at = some time })

  -- the part of a claim with schemas behind the client of its database
  unfoldable pub manage_schemas : ℕ → Data → ConnectionInfo → Client → RoleHandler W Outcome
  unfolding init_status_values create_schemas rotate_user copy_source_secret manage_error
      update_client_status manage_success
  manage_schemas time source c client =
      here (λ s. set_role_status (init_status_values s.claim))
      >> here (λ s.
        let finish = update_client_status r >> manage_success r in
        if is_due (cluster.now s.world) s.claim.status.schemas_roles_updated_at
        then (create_schemas r client c.database_name s.claim.spec.schema_role_map
            >> here (λ s. rotate_user r client s.claim)
            >>= λ password.
                attempt
                  (here (λ s. call (
                    copy_source_secret cluster sql.query_escape source s.claim
                      s.claim.status.username password)))
                  (manage_error r) (λ _. set_times time >> finish))
        else finish)

  -- a claim with schemas
  unfoldable pub reconcile_schemas : ℕ → Data → String → DatabaseClaim → RoleHandler W Outcome
  unfolding missing_param read_resource_secret existing_db_client manage_schemas
  reconcile_schemas time source host db = here (λ s.
      if missing_param s.claim.spec.schema_role_map
      then fail (message "schema and role are mandatory when one of these fields are provided")
      else (λ v.
          rescue (read_resource_secret r host db v.world) v
            (λ _. fail (message "reading resource secret"))
            (λ c. call (existing_db_client sql (some c)) >>= manage_schemas time source c)))

  -- a claim without: its secret is a copy
  unfoldable pub reconcile_copy : ℕ → Data → String → RoleHandler W Outcome
  unfolding copy_source_secret manage_error manage_success
  reconcile_copy time source version = here (λ s.
      if version == s.claim.status.source_secret_resource_version
      then manage_success r
      else attempt (call (copy_source_secret cluster sql.query_escape source s.claim "" ""))
          (manage_error r)
          (λ _.
            set_role_status (λ st. record st {
              source_secret_resource_version = version;
              secret_updated_at = some time;
            })
            >> manage_success r))

  -- Reconcile behind deleteWorkflow
  unfoldable pub reconcile_role : ℕ → RoleHandler W Outcome
  unfolding get_source_db_claim set_db_claim_req_info get_source_secret reconcile_schemas
      reconcile_copy manage_error
  reconcile_role time = here (λ s.
      let name = s.claim.spec.source_database_claim.name in
      if name == ""
      then manage_error r (message "sourcedatabaseclaim cannot be nil")
      else attempt (get_source_db_claim r)
          (λ _. manage_error r (message (name <> " dbclaim not found")))
          (λ db.
            attempt (lift (set_db_claim_req_info r db))
              (λ _. manage_error r (message ("setting dbclaim required info: " <> name)))
              (λ host.
                attempt (get_source_secret r db.spec.secret_name)
                  (λ _.
                    manage_error r (message (db.spec.secret_name <> " source secret not found")))
                  (λ secret. here (λ s. elim s.claim.spec.schema_role_map [
                    | [] ↦ reconcile_copy time secret.0 secret.1
                    | _ ∷ _ ↦ reconcile_schemas time secret.0 host db
                  ])))))

  -- Reconcile
  unfoldable pub reconcile : String → String → Exec W Outcome
  unfolding is_class_permitted delete_workflow reconcile_role
  reconcile namespace name w =
      rescue (cluster.get_role_claim namespace name w) w
        (λ e. if is_not_found e then pure no_requeue else fail e)
        (λ claim. lift (deref claim.spec.class) >>= λ class v.
          if is_class_permitted r.class class
          then (let done =
                (delete_workflow r >>= λ deleted.
                if deleted then pure no_requeue else reconcile_role (cluster.now w))
                  (record { claim = claim; world = v }) in
              (done.0, done.1.world))
          else (ok no_requeue, v))
