-- ===== src/Examples/Tools.antt =====
-- A shell that keeps the programs it was asked to run, and the theorems about the tools at it.
use db_controller.Prelude.{pos, ◌==◌, if◌then◌else◌, String, some, List, [], ◌∷◌, ◌≡◌, refl}
use db_controller.Api.Error.{ok, err, message, wrapped}
use db_controller.Examples.Fixtures.{databases, migration_config}
use db_controller.Pgctl.Execute.{execute, execute_copy_schema, get_parent_role, group_role}
use db_controller.Pgctl.Postgres.{Databases}
use db_controller.Pgctl.State.{create_subscription_state, copy_schema_state}
use db_controller.Pgctl.Tools.{
  Shell, succeeded, exited, broken, tools, exec_dump, exec_restore, get_file_name,
  modify_pg_dump_info,
}
use db_controller.Pgctl.Tools.Misreported.{first_edit, unstarted_dump-misreported}
use db_controller.Pgctl.Tools.Reports.{Copied, copy_schema-Copied, file_at, granted}

abbrev Log : Type 0
Log = List String

abbrev plain : Databases Log
plain = databases

abbrev shell : Shell Log
shell = record {
  run = λ program options w. ((succeeded, ""), program ∷ w);
  unix_time = λ w. "1700000000";
  os = "linux";
}

copies :
    (execute (tools shell plain) migration_config copy_schema_state []).0
    ≡ ok (some create_subscription_state)
unfolding execute execute_copy_schema tools exec_dump exec_restore modify_pg_dump_info get_file_name
copies = refl

copy_schema-Copied_example :
    (role : String) × (plain.user_of migration_config.target_db_user_dsn ≡ ok role)
    × ((plain.grant_role migration_config.target_db_admin_dsn
          (group_role migration_config.cloud)
          (get_parent_role role)
          []).0
        ≡ ok tt)
    × Copied shell plain migration_config
        (file_at shell plain (granted plain migration_config role []))
        (granted plain migration_config role [])
copy_schema-Copied_example =
    copy_schema-Copied shell plain migration_config [] (some create_subscription_state) copies

-- pg_dump is not there, and sed finds no file
abbrev missing : Shell Log
missing = record shell {
  run = λ program options w. (
    (
      if program == "pg_dump"
          then broken (message "not found")
          else exited (message "exit status 2") (pos 2),
      "",
    ),
    program ∷ w,
  );
}

unstarted_dump-misreported_example :
    execute (tools missing plain) migration_config copy_schema_state [] ≡ (
      err (
          wrapped "error running sed command to comment create policy: " (message "exit status 2")),
      (first_edit missing plain migration_config []).1,
    )
unstarted_dump-misreported_example =
    unstarted_dump-misreported missing plain migration_config [] "app_a" (message "not found")
      (message "exit status 2") (pos 2) refl refl refl refl refl
