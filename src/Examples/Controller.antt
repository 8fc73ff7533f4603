-- ===== src/Examples/Controller.antt =====
-- The theorems on the controllers, on a small server.
use db_controller.Aws.{Crossplane, Instance, ResourceCondition}
use db_controller.Aws.Instances.{manage_postgres_db_instance_aws, new_postgres_instance}
use db_controller.Aws.ParamGroups.{manage_postgres_param_group}
use db_controller.Aws.Reported.{IsReady, manage_postgres_db_instance_aws-IsReady}
use db_controller.Aws.Hosts.{manage_cloud_host_aws}
use db_controller.Aws.Kept.{manage_cloud_host_aws-Kept}
use db_controller.Aws.Kept.Serve.{status_and_request}
use db_controller.Examples.Server.{idle_crossplane}
use db_controller.Prelude.{
  none, ◌≤◌, ◌+◌, true, false, some, [], ◌∷◌, lookup, contains, trim_suffix, before, after,
  has_char, ◌≡◌, refl, ◌==◌, if◌then◌else◌,
}
use Prim.Native.String.{len}
use db_controller.Api.Claim.{DatabaseClaim, no_status}
use db_controller.Api.Connection.{no_connection}
use db_controller.Api.Error.{Result, ok, err, failed}
use db_controller.Cluster.{Context}
use db_controller.Config.{get_db_identifier_prefix}
use db_controller.DbClient.Databases.{
  function_name, function_schema, manage_functions, says_missing,
}
use db_controller.DbClient.Functions.{missing_function_skipped}
use db_controller.Examples.Fixtures.{claim, connection, root_client, settings}
use db_controller.Examples.Pure.{info}
use db_controller.Examples.Server.{
  Server, empty_server, idle_sql, server, server_logins, server_stores,
}
use db_controller.Exec.{◌>>◌}
use db_controller.ExistingDb.{hand_out}
use db_controller.ExistingDb.HandOut.{Readable, hand_out-Readable}
use db_controller.HostName.{get_dynamic_host_name}
use db_controller.HostName.Length.{host_name-bounded}
use db_controller.HostParams as HostParams
use db_controller.Mode.{use_new_db}
use db_controller.Provisioning.{reconcile_new_db}
use db_controller.Provisioning.Active.{active, reconcile_new_db-active}
use db_controller.RequestInfo.{RequestInfo, new_request_info}
use db_controller.Sql.{Sql}
use db_controller.Users.{current_user, manage_user_and_extensions}
use db_controller.ConnectionString.Uri.{uri}
use db_controller.DbUser.{is_user_changed, new_db_user}
use db_controller.Api.Condition.{error_text}
use db_controller.Users.Login.{HandsOut, manage_user-HandsOut}

-- a claim whose database is new
abbrev fresh_claim : DatabaseClaim
fresh_claim = record claim {
  status = record (claim.status) {
    new_db = record no_status { connection_info = some no_connection };
  };
}

abbrev fresh : Context Server
fresh = record { claim = fresh_claim; info = info; world = empty_server }

users_managed :
    (manage_user_and_extensions server root_client "app" "app" use_new_db fresh).0 ≡ ok tt
unfolding manage_user_and_extensions trim_suffix
users_managed = refl

own_user :
    is_user_changed
      (new_db_user "app")
      (current_user server use_new_db no_connection (some connection))
    ≡ false
unfolding is_user_changed trim_suffix uri new_db_user
own_user = refl

manage_user-HandsOut_example :
    HandsOut server server_logins
      (manage_user_and_extensions server root_client "app" "app" use_new_db fresh).1
manage_user-HandsOut_example =
    manage_user-HandsOut server server_logins root_client "app" "app" use_new_db no_connection fresh
      refl refl own_user users_managed

-- what the management of the users leaves
abbrev with_user : Context Server
with_user = record {
  claim = record claim {
    status = record (claim.status) {
      new_db = record no_status {
        connection_info = some (record connection { username = "app_b" });
      };
    };
  };
  info = record info { temp_secret = "new secret" };
  world = record empty_server { passwords = ("app_b", "new secret") ∷ [] };
}

user_logs_in : HandsOut server server_logins with_user
unfolding lookup
user_logs_in = (record connection { username = "app_b" }, refl, refl)

handed_out : (hand_out server with_user).0 ≡ ok tt
unfolding hand_out
handed_out = refl

hand_out-Readable_example :
    Readable server server_logins server_stores with_user.claim (hand_out server with_user).1.world
hand_out-Readable_example =
    hand_out-Readable server server_logins server_stores with_user user_logs_in refl refl handed_out

reconcile_new_db-active_example : active (reconcile_new_db server use_new_db fresh).1 ≡ active fresh
reconcile_new_db-active_example =
    reconcile_new_db-active server use_new_db fresh (λ s. refl) (λ s. refl)

manage_cloud_host_aws-Kept_example :
    status_and_request (manage_cloud_host_aws server idle_crossplane use_new_db fresh).1
    ≡ status_and_request fresh
manage_cloud_host_aws-Kept_example =
    manage_cloud_host_aws-Kept server idle_crossplane use_new_db fresh

abbrev said_ready : ResourceCondition
said_ready = record { type = "Ready"; status = "True"; reason = "Available"; message = "" }

abbrev ready_instance : Instance
ready_instance =
    record (new_postgres_instance server idle_crossplane use_new_db "db" "system" "group" [] info
      claim) { conditions = said_ready ∷ [] }

-- Crossplane with an instance that is ready
abbrev ready_crossplane : Crossplane Server
ready_crossplane = record idle_crossplane { get_instance = λ _ _. ok ready_instance }

reported :
    (manage_postgres_db_instance_aws server ready_crossplane "db" use_new_db fresh).0 ≡ ok true
unfolding manage_postgres_db_instance_aws new_postgres_instance
reported = refl

manage_postgres_db_instance_aws-IsReady_example :
    let w = (manage_postgres_param_group server ready_crossplane info fresh.claim fresh.world).1 in
    (i : Instance) × (ready_crossplane.get_instance "db" w ≡ ok i)
    × (i.deletion_timestamp ≡ none)
    × IsReady i.conditions
manage_postgres_db_instance_aws-IsReady_example =
    manage_postgres_db_instance_aws-IsReady server ready_crossplane "db" use_new_db fresh reported

abbrev request : Result RequestInfo → RequestInfo
request (ok i) = i
request _ = info

accepted : new_request_info settings claim ≡ ok (request (new_request_info settings claim))
unfolding new_request_info HostParams.new
accepted = refl

host_name-bounded_example :
    len (get_dynamic_host_name (λ _. 3735928559) settings info.host_params claim)
    ≤ len (get_db_identifier_prefix settings) + 54
host_name-bounded_example =
    host_name-bounded (λ _. 3735928559) settings claim (request (new_request_info settings claim))
      info.host_params accepted

-- a server on which a function is missing
abbrev functions_sql : Sql Server
functions_sql = record idle_sql {
  call_function =
      λ _ _ f _. if f == "present" then ok "text" else err (failed "function does not exist");
}

missing : says_missing (failed "function does not exist") ≡ true
unfolding contains error_text
missing = refl

present :
    functions_sql.call_function "db"
      (function_schema "ib_present")
      (function_name "ib_present")
      empty_server
    ≡ ok "text"
unfolding before after has_char
present = refl

absent_behind :
    functions_sql.call_function "db"
      (function_schema "ib_absent")
      (function_name "ib_absent")
      (manage_functions functions_sql root_client "db" ""
        (("ib_present", "text") ∷ [])
        empty_server).1
    ≡ err (failed "function does not exist")
unfolding before after has_char manage_functions
absent_behind = refl

missing_function_skipped_example :
    manage_functions functions_sql root_client "db" ""
      (("ib_present", "text") ∷ ("ib_absent", "text") ∷ [])
      empty_server
    ≡ (manage_functions functions_sql root_client "db" "" (("ib_present", "text") ∷ [])
          >> manage_functions functions_sql root_client "db" "text" [])
        empty_server
missing_function_skipped_example =
    missing_function_skipped functions_sql root_client "db" "ib_present" "ib_absent" "text" "text"
      "" [] (failed "function does not exist") empty_server present absent_behind missing
