-- ===== src/RoleController/Members.antt =====
-- The roles of a user whom the controller of pkg/roleclaim/roleclaim.go rotates to. `Members` is
-- the view of a server as the roles that each user is a member of, and what GRANT, REVOKE and the
-- query of the roles do to it.
use db_controller.Prelude.{
  String, Bool, true, false, not, ◌&&◌, ◌||◌, List, [], ◌∷◌, Map, ◌==◌, ◌≡◌, refl, ap, ◌∙◌, arith,
  inl, inr, Bool-cases, ◌<>◌,
}
use db_controller.Api.Error.{ok}
use db_controller.DbClient.Connect.{Client}
use db_controller.DbClient.Roles.{assign_role_to_user, get_user_roles, revoke_access_to_role}
use db_controller.DbUser.{new_db_user, next_user}
use db_controller.Exec.{pure, ◌>>◌}
use db_controller.HostParams.{to_lower}
use db_controller.Exec.Chain.{chain-ok}
use db_controller.RoleController.Reconcile.{
  assign_all, revoke_all, role_name, rotate_user, give_roles, renew_user,
}
use db_controller.RoleController.{RoleReconciler, RoleContext, call}
use db_controller.Api.RoleClaim.{DbRoleClaim}
use db_controller.Sql.{Sql, assign_role, revoke_role}

abbrev pub elem : String → List String → Bool
elem x [] = false
elem x (y ∷ ys) = x == y || elem x ys

pub record Members {W : Type 0} (sql : Sql W) : Type 0 where
  pub member : W → String → String → Bool
  pub revokes :
      (dsn role user : String) (w : W)
      → (sql.exec dsn (revoke_role role user) w).0 ≡ ok tt
      → (x : String)
      → member (sql.exec dsn (revoke_role role user) w).1 user x
        ≡ (member w user x && not (x == role))
  pub assigns :
      (dsn user role : String) (w : W)
      → (sql.exec dsn (assign_role user role) w).0 ≡ ok tt
      → (x : String)
      → member (sql.exec dsn (assign_role user role) w).1 user x ≡ (member w user x || x == role)
  pub lists :
      (dsn user : String) (w : W) (roles : List String)
      → sql.roles_of dsn user w ≡ ok roles
      → (x : String) → member w user x ≡ true
      → elem x roles ≡ true

and_not-or : (a b c : Bool) → ((a && not b) && not c) ≡ (a && not (b || c))
and_not-or a b c = ground arith

or_assoc : (a b c : Bool) → ((a || b) || c) ≡ (a || (b || c))
or_assoc a b c = ground arith

-- the roles of a claim
abbrev pub names : Map String → List String
names [] = []
names ((schema, role) ∷ rest) = role_name schema role ∷ names rest

module _ {W : Type 0} (r : RoleReconciler W) (law : Members r.sql) (client : Client) where
  open law use {member}

  -- What is left behind the revocations.
  revoke_all-member :
      (user : String) (roles : List String) (w : W)
      → (revoke_all r client user roles w).0 ≡ ok tt
      → (x : String)
      → member (revoke_all r client user roles w).1 user x ≡ (member w user x && not (elem x roles))
  unfolding revoke_all revoke_access_to_role
  revoke_all-member user [] w h x = ground arith
  revoke_all-member user (role ∷ roles) w h x =
      let (u, h1, h2, e) =
        chain-ok (revoke_access_to_role r.sql client user role)
          (λ _. revoke_all r client user roles) w h in
      let before = (revoke_access_to_role r.sql client user role w).1 in
      ap (λ done. member done.1 user x) e
      ∙ revoke_all-member user roles before h2 x
      ∙ ap (λ b. b && not (elem x roles)) (law.revokes client.dsn role user w h1 x)
      ∙ and_not-or (member w user x) (x == role) (elem x roles)

  -- Nothing is left behind the revocation of the roles that are listed.
  none_left :
      (user : String) (roles : List String) (w : W)
      → r.sql.roles_of client.dsn user w ≡ ok roles
      → (x : String) → (member w user x && not (elem x roles)) ≡ false
  none_left user roles w h x = elim (Bool-cases (member w user x)) [
    | inl p ↦ rw p (rw (law.lists client.dsn user w roles h x p) refl)
    | inr p ↦ rw p refl
  ]

  -- What is given behind the revocations.
  assign_all-member :
      (user : String) (map : Map String) (w : W)
      → (assign_all r client user map w).0 ≡ ok tt
      → (x : String)
      → member (assign_all r client user map w).1 user x ≡ (member w user x || elem x (names map))
  unfolding assign_all assign_role_to_user
  assign_all-member user [] w h x = ground arith
  assign_all-member user ((schema, role) ∷ rest) w h x =
      let (u, h1, h2, e) =
        chain-ok (assign_role_to_user r.sql client user (role_name schema role))
          (λ _. assign_all r client user rest) w h in
      let before = (assign_role_to_user r.sql client user (role_name schema role) w).1 in
      ap (λ done. member done.1 user x) e
      ∙ assign_all-member user rest before h2 x
      ∙ ap (λ b. b || elem x (names rest))
          (law.assigns client.dsn user (role_name schema role) w h1 x)
      ∙ or_assoc (member w user x) (x == role_name schema role) (elem x (names rest))

  give_roles-member :
      (user : String) (map : Map String) (w : W)
      → (give_roles r client user map w).0 ≡ ok tt
      → (x : String) → member (give_roles r client user map w).1 user x ≡ elem x (names map)
  unfolding give_roles get_user_roles
  give_roles-member user map w h x =
      let (roles, h1, h2, e) =
        chain-ok (get_user_roles r.sql client user)
          (λ roles. revoke_all r client user roles >> assign_all r client user map) w h in
      let (u, h3, h4, e1) =
        chain-ok (revoke_all r client user roles) (λ _. assign_all r client user map) w h2 in
      let before = (revoke_all r client user roles w).1 in
      ap (λ done. member done.1 user x) (e ∙ e1)
      ∙ assign_all-member user map before h4 x
      ∙ ap (λ b. b || elem x (names map))
          (revoke_all-member user roles w h3 x ∙ none_left user roles w h1 x)

  renew_user-username :
      (user password : String) (s : RoleContext W)
      → (renew_user r client user s).0 ≡ ok password
      → (renew_user r client user s).1.claim.status.username ≡ user
  unfolding renew_user
  renew_user-username user password s h = ground arith

  -- Behind a rotation that succeeds the user of the claim, whose name is now in its status, is a
  -- member of the roles that the claim names and of no other, whatever roles it had.
  pub rotate_user-member :
      (claim : DbRoleClaim) (s : RoleContext W) (password x : String)
      → (rotate_user r client claim s).0 ≡ ok password
      → let s' = (rotate_user r client claim s).1 in
        member s'.world s'.claim.status.username x ≡ elem x (names claim.spec.schema_role_map)
  unfolding rotate_user
  rotate_user-member claim s password x h =
      let user = next_user (new_db_user (to_lower claim.name <> "_user")) claim.status.username in
      let map = claim.spec.schema_role_map in
      let give =
        λ (p : String). call (give_roles r client user map) >> pure {S = RoleContext W} p in
      let (p, h1, h2, e) = chain-ok (renew_user r client user) give s h in
      let s1 = (renew_user r client user s).1 in
      let (u, h3, h4, e1) =
        chain-ok (call (give_roles r client user map)) (λ _. pure {S = RoleContext W} p) s1 h2 in
      ap (λ done. member done.1.world done.1.claim.status.username x) (e ∙ e1)
      ∙ ap (λ name. member (give_roles r client user map s1.world).1 name x)
          (renew_user-username user p s h1)
      ∙ give_roles-member user map s1.world h3 x
