-- ===== src/RoleController.antt =====
-- pkg/roleclaim/roleclaim.go: the controller of role claims. Go visits the schemas of a claim in
-- any order, here in that of their list.
pub mod Secret
pub mod Deletion
pub mod Reconcile
pub mod Members
pub mod Consistent
use db_controller.Prelude.{ℕ, String, Bool, false, Option, none, some, ◌==◌, ◌<>◌, if◌then◌else◌}
use db_controller.Api.Claim.{DatabaseClaim}
use db_controller.Api.Condition.{error_text}
use db_controller.Api.Connection.{ConnectionInfo, no_connection}
use db_controller.Api.Error.{Err, Result, ok, err, panic, is_conflict, ◌>>=◌ as ◌>>>=◌}
use db_controller.Api.RoleClaim.{DbRoleClaim, RoleStatus}
use db_controller.Cluster.{Cluster}
use db_controller.Config.{Viper, get_default_ssl_mode, get_super_user_elevation}
use db_controller.Credentials.{complete_creds, master_creds}
use db_controller.Exec.{Exec, pure, fail, modify, attempt, lift, ◌>>=◌, ◌>>◌}
use db_controller.HostName.{get_dynamic_host_name}
use db_controller.HostParams as HostParams
use db_controller.Passwords.{Passwords}
use db_controller.RequestInfo.{deref}
use db_controller.Secrets.{Data}
use db_controller.Sql.{Sql}
use db_controller.StatusManager.{Outcome, no_requeue}

-- DbRoleClaimReconciler, with what it calls
pub record RoleReconciler (W : Type 0) : Type 0 where
  pub cluster : Cluster W
  pub sql : Sql W
  pub passwords : Passwords W
  pub checksum : String → ℕ
  pub config : Viper
  pub class : String
  pub namespace : String

-- what a handler works on: the role claim in memory, and the world
pub record RoleContext (W : Type 0) : Type 0 where
  pub claim : DbRoleClaim
  pub world : W

abbrev pub RoleHandler : Type 0 → Type 0 → Type 0
RoleHandler W A = Exec (RoleContext W) A

module _ {W A : Type 0} where
  abbrev pub call : Exec W A → RoleHandler W A
  call m s = ((m s.world).0, record s { world = (m s.world).1 })

  abbrev pub here : (RoleContext W → RoleHandler W A) → RoleHandler W A
  here f s = f s s

abbrev pub set_role_status : {W : Type 0} → (RoleStatus → RoleStatus) → RoleHandler W (Unit {0})
set_role_status f =
    modify (λ s. record s { claim = record (s.claim) { status = f s.claim.status } })

module _ {W : Type 0} (r : RoleReconciler W) where
  open r use {cluster, checksum, config}

  -- the update of a status, whose conflicts are ignored; then what follows
  abbrev store_status : RoleHandler W Outcome → RoleHandler W Outcome
  store_status next =
      attempt (here (λ s. call (cluster.update_role_claim_status s.claim)))
        (λ e. if is_conflict e then pure no_requeue else fail e) (λ _. next)

  -- manageError
  unfoldable pub manage_error : Err → RoleHandler W Outcome
  unfolding error_text
  manage_error e =
      set_role_status (λ st. record st { error = error_text e }) >> store_status (fail e)

  -- manageSuccess
  unfoldable pub manage_success : RoleHandler W Outcome
  manage_success =
      set_role_status (λ st. record st { error = "" }) >> store_status (pure no_requeue)

  -- updateClientStatus
  unfoldable pub update_client_status : RoleHandler W (Unit {0})
  update_client_status =
      attempt (here (λ s. call (cluster.update_role_claim_status s.claim)))
        (λ e. if is_conflict e then pure tt else fail e) pure

  -- getSourceDBClaim
  unfoldable pub get_source_db_claim : RoleHandler W DatabaseClaim
  get_source_db_claim = here (λ s.
      let source = s.claim.spec.source_database_claim in
      lift (cluster.get_claim source.namespace source.name s.world) >>= λ found.
      set_role_status
        (λ st. record st { matched_source_claim = found.namespace <> ("/" <> found.name) })
      >> pure found)

  -- getSourceSecret: its data and its resource version
  unfoldable pub get_source_secret : String → RoleHandler W (Data × String)
  get_source_secret name = here (λ s.
      let namespace = s.claim.spec.source_database_claim.namespace in
      lift (
        cluster.get_secret namespace name s.world >>>= λ d.
        cluster.secret_version namespace name s.world >>>= λ v. ok (d, v))
      >>= λ secret.
          set_role_status (λ st. record st { source_secret = namespace <> ("/" <> name) })
          >> pure secret)

  -- EnableSuperUser is a pointer, read where the settings ask for it
  abbrev check_elevation : DatabaseClaim → Result Bool
  check_elevation source =
      if get_super_user_elevation config then deref source.spec.enable_super_user else ok false

  -- setDbClaimReqInfo: the name of the database's host
  unfoldable pub set_db_claim_req_info : DatabaseClaim → Result String
  unfolding HostParams.new get_dynamic_host_name
  set_db_claim_req_info source = HostParams.new config source >>>= λ p.
      check_elevation source >>>= λ _. ok (get_dynamic_host_name checksum config p source)

  -- readResourceSecret
  unfoldable pub read_resource_secret : String → DatabaseClaim → W → Result ConnectionInfo
  read_resource_secret host source w =
      complete_creds cluster (cluster.get_secret r.namespace host w) source.spec.database_name
        (get_default_ssl_mode config)

  -- the connection that readResourceSecret returns beside its error
  abbrev pub resource_connection : Result Data → DatabaseClaim → ConnectionInfo
  resource_connection (ok d) source =
      master_creds source.spec.database_name (get_default_ssl_mode config) d
  resource_connection _ source = no_connection
