-- ===== src/Users/Login.antt =====
-- The user that manageUserAndExtensions of pkg/databaseclaim/databaseclaim.go hands out. `Logins`
-- is the view of a server as the passwords of its users, and what ALTER ROLE and the statements on
-- the rights of a role do to it.
use db_controller.Prelude.{
  String, Bool, true, false, ◌&&◌, Option, none, some, ◌≡◌, refl, ap, subst, ◌∙◌, sym, arith,
  if◌then◌else◌,
}
use db_controller.Api.Connection.{ConnectionInfo}
use db_controller.Api.Error.{ok, wrapped}
use db_controller.Cluster.{Context, call}
use db_controller.Config.{get_password_rotation_period}
use db_controller.DbClient.Connect.{Client}
use db_controller.DbClient.Roles.{
  create_role_if_missing, manage_create_role, manage_replication_role, replication_role,
  manage_super_user_role,
}
use db_controller.DbClient.Users.{create_user_if_missing, update_password}
use db_controller.Passwords.{generate_password}
use db_controller.StatusManager.{update_user_status}
use db_controller.DbUser.{DbUser, is_user_changed, next_user, new_db_user}
use db_controller.Exec.{Exec, fail, pure, ◌>>◌}
use db_controller.Exec.Chain.{chain-ok}
use db_controller.Exec.Frame.{Keeps, attempt-Keeps, if-Keeps}
use db_controller.Mode.{ModeEnum}
use db_controller.Reconciler.{Reconciler}
use db_controller.Sql.{
  Sql, Statement, allow_create_role, allow_replication, alter_password, forbid_create_role,
  forbid_replication, grant_role, revoke_role,
}
use db_controller.Users.{
  add_extensions, current_user, is_use_new_db, manage_user_of, manage_rights,
  manage_requested_rights, manage_users, manage_user_and_extensions, rotate, rotate_if_due,
  rotation_due, set_user, unless_revoked,
}

-- the statements on the rights of a role
abbrev pub is_right : Statement → Bool
is_right (grant_role _ _) = true
is_right (revoke_role _ _) = true
is_right (allow_create_role _) = true
is_right (forbid_create_role _) = true
is_right (allow_replication _) = true
is_right (forbid_replication _) = true
is_right _ = false

pub record Logins {W : Type 0} (sql : Sql W) : Type 0 where
  pub login : W → String → Option String
  pub sets :
      (dsn user password : String) (w : W)
      → (sql.exec dsn (alter_password user password) w).0 ≡ ok tt
      → login (sql.exec dsn (alter_password user password) w).1 user ≡ some password
  pub keeps :
      (dsn : String) (s : Statement) (w : W)
      → is_right s ≡ true
      → login (sql.exec dsn s w).1 ≡ login w

module _ {W : Type 0} (r : Reconciler W) (law : Logins r.sql) where
  open law use {login}

  -- The user in status.newDB logs in with the password that this request keeps for its secret.
  abbrev pub HandsOut : Context W → Type 0
  HandsOut s =
      (c : ConnectionInfo) × (s.claim.status.new_db.connection_info ≡ some c)
      × (login s.world c.username ≡ some s.info.temp_secret)

  module _ (client : Client) where
    right : (s : Statement) → is_right s ≡ true → Keeps login (r.sql.exec client.dsn s)
    right s h w = law.keeps client.dsn s w h

    super_user-Keeps :
        (user : String) (enable : Bool)
        → Keeps login (manage_super_user_role r.sql client user enable)
    unfolding manage_super_user_role
    super_user-Keeps user enable =
        if-Keeps login enable _ _ (right (grant_role _ _) refl) (right (revoke_role _ _) refl)

    create_role-Keeps :
        (role : String) (enable : Bool) → Keeps login (manage_create_role r.sql client role enable)
    unfolding manage_create_role
    create_role-Keeps role enable w =
        ground
          (arith, right (allow_create_role role) refl w, right (forbid_create_role role) refl w)

    replication-Keeps :
        (user : String) (enable : Bool)
        → Keeps login (manage_replication_role r.sql client user enable)
    unfolding manage_replication_role
    replication-Keeps user enable w = ground (
      arith,
      right (allow_replication user) refl w,
      right (forbid_replication user) refl w,
      right (grant_role (replication_role client) user) refl w,
      right (revoke_role (replication_role client) user) refl w,
    )

    unless_revoked-Keeps :
        (text : String) (enable : Bool) (m : Exec W (Unit {0}))
        → Keeps login m
        → Keeps login (unless_revoked r text enable m)
    unfolding unless_revoked
    unless_revoked-Keeps text enable m k =
        attempt-Keeps login m (λ e. if enable then fail (wrapped text e) else pure tt) pure k
          (λ e. if-Keeps login enable (fail (wrapped text e)) (pure tt) (λ _. refl) (λ _. refl))
          (λ _ _. refl)

    rights-Keeps :
        (dbu : DbUser) (current : String) (super_user replication : Bool)
        → Keeps login (manage_rights r client dbu current super_user replication)
    unfolding manage_rights
    rights-Keeps dbu current super_user replication w =
        let su = manage_super_user_role r.sql client dbu.rolename super_user in
        let cr = manage_create_role r.sql client dbu.rolename super_user in
        let rc = manage_replication_role r.sql client current replication in
        let rn = manage_replication_role r.sql client (next_user dbu current) replication in
        grind (
          arith,
          λ (t : String) (b : Bool).
              unless_revoked-Keeps t b su (super_user-Keeps dbu.rolename super_user),
          λ (t : String) (b : Bool).
              unless_revoked-Keeps t b cr (create_role-Keeps dbu.rolename super_user),
          λ (t : String) (b : Bool).
              unless_revoked-Keeps t b rc (replication-Keeps current replication),
          λ (t : String) (b : Bool).
              unless_revoked-Keeps t b rn (replication-Keeps (next_user dbu current) replication),
        )

    update_password-sets :
        (user password : String) (w : W)
        → (update_password r.sql client user password w).0 ≡ ok tt
        → login (update_password r.sql client user password w).1 user ≡ some password
    unfolding update_password
    update_password-sets user password w h = ground (arith, law.sets client.dsn user password w)

    set_user-HandsOut :
        (user password : String) (s : Context W)
        → login s.world user ≡ some password
        → HandsOut (set_user r user password s).1
    unfolding set_user update_user_status
    set_user-HandsOut user password s h = (_, refl, h)

    -- A rotation sets the password of the next user, and hands it out.
    rotate-HandsOut :
        (dbu : DbUser) (current : String) (s : Context W)
        → (rotate r client dbu current s).0 ≡ ok tt
        → HandsOut (rotate r client dbu current s).1
    unfolding rotate
    rotate-HandsOut dbu current s h =
        let user = next_user dbu current in
        let set = λ (p : String). set_user r user p in
        let update = λ (p : String). call (update_password r.sql client user p) in
        let create =
          λ (p : String). call (create_user_if_missing r.sql client user dbu.rolename p) in
        let (p, h1, n1, e1) =
          chain-ok (call (generate_password r.passwords r.config))
            (λ p. create p >> (update p >> set p)) s h in
        let s1 = (call (generate_password r.passwords r.config) s).1 in
        let (u, h2, n2, e2) = chain-ok (create p) (λ _. update p >> set p) s1 n1 in
        let s2 = (create p s1).1 in
        let (v, h3, n3, e3) = chain-ok (update p) (λ _. set p) s2 n2 in
        subst (λ done. HandsOut done.1) (sym (e1 ∙ e2 ∙ e3))
          (set_user-HandsOut user p (update p s2).1 (update_password-sets user p s2.world h3))

    -- The rights behind a rotation leave its result as it is.
    call-HandsOut :
        (m : Exec W (Unit {0})) (s : Context W) → Keeps login m → HandsOut s → HandsOut (call m s).1
    call-HandsOut m s k (c, e, l) = (c, e, ap (λ f. f c.username) (k s.world) ∙ l)

    if_due-HandsOut :
        (dbu : DbUser) (current : String) (s : Context W)
        → s.claim.status.new_db.user_updated_at ≡ none
        → (rotate_if_due r client dbu current s).0 ≡ ok tt
        → HandsOut (rotate_if_due r client dbu current s).1
    unfolding rotate_if_due rotation_due
    if_due-HandsOut dbu current s d h =
        let due =
          ap
            (λ u.
              rotation_due (r.cluster.now s.world) (get_password_rotation_period r.config) u
                s.claim.status.active_db.user_updated_at)
            d in
        rw due (rotate-HandsOut dbu current s (rw due at h))

    due-HandsOut :
        (dbu : DbUser) (current : String) (s : Context W)
        → s.claim.status.new_db.user_updated_at ≡ none
        → ((rotate_if_due r client dbu current >> manage_requested_rights r client dbu current) s).0
          ≡ ok tt
        → HandsOut
            ((rotate_if_due r client dbu current >> manage_requested_rights r client dbu current)
              s).1
    due-HandsOut dbu current s d h =
        let rights = manage_requested_rights r client dbu current in
        let (u, h1, h2, e) = chain-ok (rotate_if_due r client dbu current) (λ _. rights) s h in
        let s1 = (rotate_if_due r client dbu current s).1 in
        subst (λ done. HandsOut done.1) (sym e)
          (call-HandsOut
            (manage_rights r client dbu current s1.info.enable_super_user
              s1.info.enable_replication_role)
            s1 (rights-Keeps dbu current s1.info.enable_super_user s1.info.enable_replication_role)
            (if_due-HandsOut dbu current s d h1))

    manage_users-HandsOut :
        (dbu : DbUser) (current : String) (s : Context W)
        → is_user_changed dbu current ≡ false
        → s.claim.status.new_db.user_updated_at ≡ none
        → (manage_users r client dbu current s).0 ≡ ok tt
        → HandsOut (manage_users r client dbu current s).1
    unfolding manage_users
    manage_users-HandsOut dbu current s n d h = rw n (due-HandsOut dbu current s d (rw n at h))

    extensions-claim :
        (db_name base : String) (b : Bool) (s : Context W)
        → (add_extensions r client db_name base b s).1.claim ≡ s.claim
    unfolding add_extensions
    extensions-claim db_name base true s = refl
    extensions-claim db_name base false s = refl

    user_of-HandsOut :
        (db_name base : String) (mode : ModeEnum) (new : ConnectionInfo) (s : Context W)
        → s.claim.status.new_db.user_updated_at ≡ none
        → is_user_changed
            (new_db_user base)
            (current_user r mode new s.claim.status.active_db.connection_info)
          ≡ false
        → (manage_user_of r client db_name base mode (some new) s).0 ≡ ok tt
        → HandsOut (manage_user_of r client db_name base mode (some new) s).1
    unfolding manage_user_of
    user_of-HandsOut db_name base mode new s d n h =
        let make = call (create_role_if_missing r.sql client db_name base "public") in
        let users =
          manage_users r client (new_db_user base)
            (current_user r mode new s.claim.status.active_db.connection_info) in
        let extend = λ (b : Bool). add_extensions r client db_name base (b && is_use_new_db mode) in
        let (b, h1, n1, e1) = chain-ok make (λ b. extend b >> users) s h in
        let s1 = (make s).1 in
        let (u, h2, n2, e2) = chain-ok (extend b) (λ _. users) s1 n1 in
        let same = extensions-claim db_name base (b && is_use_new_db mode) s1 in
        subst (λ done. HandsOut done.1) (sym (e1 ∙ e2))
          (manage_users-HandsOut (new_db_user base)
            (current_user r mode new s.claim.status.active_db.connection_info) (extend b s1).1 n
            (ap (λ c. c.status.new_db.user_updated_at) same ∙ d) n2)

    -- When the users of a new database are managed without an error, and its status has no user yet,
    -- the status names a user who logs in with the password that the request keeps for the secret.
    -- The condition is that the user in use is of the claim's own role.
    pub manage_user-HandsOut :
        (db_name base : String) (mode : ModeEnum) (new : ConnectionInfo) (s : Context W)
        → s.claim.status.new_db.connection_info ≡ some new
        → s.claim.status.new_db.user_updated_at ≡ none
        → is_user_changed
            (new_db_user base)
            (current_user r mode new s.claim.status.active_db.connection_info)
          ≡ false
        → (manage_user_and_extensions r client db_name base mode s).0 ≡ ok tt
        → HandsOut (manage_user_and_extensions r client db_name base mode s).1
    unfolding manage_user_and_extensions
    manage_user-HandsOut db_name base mode new s c d n h =
        let opened = ap (λ conn. manage_user_of r client db_name base mode conn s) c in
        subst (λ done. HandsOut done.1) (sym opened)
          (user_of-HandsOut db_name base mode new s d n (sym (ap (λ done. done.0) opened) ∙ h))
