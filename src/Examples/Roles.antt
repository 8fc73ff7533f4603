-- ===== src/Examples/Roles.antt =====
-- The theorems on role claims, on a server that holds the roles of one user.
use db_controller.Prelude.{
  String, Bool, true, not, ◌&&◌, ◌||◌, none, some, List, [], ◌∷◌, ◌≡◌, refl, subst, arith, ◌==◌,
  eq_iff, if◌then◌else◌,
}
use db_controller.Api.Error.{Result, ok}
use db_controller.Api.RoleClaim.{DbRoleClaim, no_role_status}
use db_controller.Examples.Fixtures.{root_client, settings}
use db_controller.Examples.Server.{
  empty_server, fixed_passwords, idle_cluster, idle_sql, server_cluster, server_store,
}
use db_controller.RoleController.{RoleContext, RoleReconciler}
use db_controller.RoleController.Consistent.{ForUser, copy_source_secret-ForUser}
use db_controller.RoleController.Members.{Members, elem, names, rotate_user-member}
use db_controller.RoleController.Reconcile.{rotate_user}
use db_controller.RoleController.Secret.{copy_source_secret}
use db_controller.Secrets.{Data}
use db_controller.Sql.{Sql, Statement, assign_role, revoke_role}

-- a server that holds the roles of one user
remove : String → List String → List String
remove role [] = []
remove role (x ∷ xs) = let rest = remove role xs in if x == role then rest else x ∷ rest

abbrev change_roles : Statement → List String → List String
change_roles (assign_role user role) w = role ∷ w
change_roles (revoke_role role user) w = remove role w
change_roles _ w = w

abbrev roles_sql : Sql (List String)
roles_sql = record idle_sql { exec = λ _ s w. (ok tt, change_roles s w); roles_of = λ _ _ w. ok w }

elem-remove :
    (role : String) (xs : List String) (x : String)
    → elem x (remove role xs) ≡ (elem x xs && not (x == role))
unfolding remove
elem-remove role [] x = refl
elem-remove role (y ∷ ys) x =
    ground (arith, elem-remove role ys x, eq_iff x y, eq_iff y role, eq_iff x role)

or_comm : (a b : Bool) → (a || b) ≡ (b || a)
or_comm a b = ground arith

abbrev listing : Result (List String) → List String
listing (ok xs) = xs
listing _ = []

listed :
    (w roles : List String) → ok w ≡ ok roles → (x : String) → elem x w ≡ true → elem x roles ≡ true
listed w roles h x m = subst (λ r. elem x (listing r) ≡ true) h m

abbrev members : Members roles_sql
members = record {
  member = λ w _ x. elem x w;
  revokes = λ dsn role user w h x. elem-remove role w x;
  assigns = λ dsn user role w h x. or_comm (x == role) (elem x w);
  lists = λ dsn user w roles h x m. listed w roles h x m;
}

abbrev role_reconciler : RoleReconciler (List String)
role_reconciler = record {
  cluster = idle_cluster;
  sql = roles_sql;
  passwords = fixed_passwords;
  checksum = λ _. 3735928559;
  config = settings;
  class = "default";
  namespace = "system";
}

abbrev role_claim : DbRoleClaim
role_claim = record {
  namespace = "apps";
  name = "reports";
  deletion_timestamp = none;
  finalizers = [];
  spec = record {
    class = some "default";
    source_database_claim = record { namespace = "apps"; name = "app" };
    schema_role_map = ("sales", "readonly") ∷ [];
    secret_name = "reports-secret";
  };
  status = no_role_status;
}

abbrev role_context : RoleContext (List String)
role_context = record { claim = role_claim; world = "old_role" ∷ [] }

rotated : (rotate_user role_reconciler root_client role_claim role_context).0 ≡ ok "new secret"
unfolding rotate_user
rotated = refl

rotate_user-member_example :
    elem "old_role" (rotate_user role_reconciler root_client role_claim role_context).1.world
    ≡ elem "old_role" (names (("sales", "readonly") ∷ []))
rotate_user-member_example =
    rotate_user-member role_reconciler members root_client role_claim role_context "new secret"
      "old_role" rotated

abbrev source_data : Data
source_data = some (
    ("database", "app")
    ∷ ("hostname", "db.example.com")
    ∷ ("password", "old")
    ∷ ("port", "5432")
    ∷ ("sslmode", "require")
    ∷ ("username", "app_a")
    ∷ [])

copied :
    (copy_source_secret server_cluster
      (λ s. s)
      source_data
      role_claim
      "reports_user_a"
      "new secret"
      empty_server).0
    ≡ ok tt
unfolding copy_source_secret
copied = refl

copy_source_secret-ForUser_example :
    (d : Data) × (server_cluster.get_secret "apps" "reports-secret"
        (copy_source_secret server_cluster
          (λ s. s)
          source_data
          role_claim
          "reports_user_a"
          "new secret"
          empty_server).1
      ≡ ok d)
    × ForUser (λ s. s) "reports_user_a" "new secret" d
copy_source_secret-ForUser_example =
    copy_source_secret-ForUser (λ s. s) server_cluster server_store source_data role_claim
      "reports_user_a" "new secret" empty_server refl refl copied
