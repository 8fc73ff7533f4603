-- ===== src/Pgctl/Tools/Misreported.antt =====
-- What the copy of the schema in pkg/pgctl/pgctl.go returns where pg_dump does not run.
use db_controller.Prelude.{ℤ, String, ◌≡◌, ◌<>◌, ap, arith}
use db_controller.Api.Error.{Err, ok, err, wrapped}
use db_controller.Pgctl.Execute.{execute, execute_copy_schema, get_parent_role, group_role}
use db_controller.Pgctl.Postgres.{Config, Databases}
use db_controller.Pgctl.State.{copy_schema_state}
use db_controller.Pgctl.Tools.{
  Dump, Ending, Shell, broken, exited, dump_options, exec_dump, get_file_name, join,
  modify_pg_dump_info, new_dump, policies_commented, schema_dump, sed, tools,
}
use db_controller.Pgctl.Tools.Reports.{
  dump_command, dump_of, dump_outcome, file_at, granted, pg_dump,
}

module _ {W : Type 0} (db : Databases W) (config : Config) where
  -- a copy whose edits fail
  copy_stops :
      (w : W) (role file : String) (v u : W) (e : Err)
      → db.ping config.target_db_admin_dsn w ≡ ok tt
      → db.user_of config.target_db_user_dsn ≡ ok role
      → (db.grant_role config.target_db_admin_dsn
          (group_role config.cloud)
          (get_parent_role role)
          w).0
        ≡ ok tt
      → db.dump_schema config.source_db_admin_dsn config.export_file_path (granted db config role w)
        ≡ (ok file, v)
      → db.modify_dump (config.export_file_path <> file) v ≡ (err e, u)
      → execute_copy_schema db config w ≡ (err e, u)
  unfolding execute_copy_schema
  copy_stops w role file v u e p n g d m = ground (arith, p, n, g, d, m)

module _ {W : Type 0} (shell : Shell W) (db : Databases W) where
  dump_goes_on :
      (dsn path : String) (w : W) (e : Err)
      → (pg_dump shell db dsn path w).0.0 ≡ broken e
      → (tools shell db).dump_schema dsn path w
        ≡ (ok (file_at shell db w), (pg_dump shell db dsn path w).1)
  unfolding tools exec_dump dump_options get_file_name new_dump
  dump_goes_on dsn path w e h =
      let ran = pg_dump shell db dsn path w in
      let named : Dump = record (schema_dump shell dsn path) { file_name = file_at shell db w } in
      ap
        (λ end. (
          dump_outcome shell db end ran.0.1 (file_at shell db w)
              (join (dump_command shell db dsn path w)) named,
          ran.1,
        ))
        h

  edit_stops :
      (path : String) (w : W) (f : Err) (code : ℤ)
      → (sed shell policies_commented path w).0.0 ≡ exited f code
      → modify_pg_dump_info shell path w ≡ (
        err (wrapped "error running sed command to comment create policy: " f),
        (sed shell policies_commented path w).1,
      )
  unfolding modify_pg_dump_info
  edit_stops path w f code h = ground (arith, h)

  module _ (config : Config) where
    abbrev pub first_edit : W → (Ending × String) × W
    first_edit w =
        sed shell policies_commented (config.export_file_path <> file_at shell db w)
          (dump_of shell db config w).1

    -- Where pg_dump ends with an error that is no exit code, as when it cannot be started, its pipe
    -- being there, and the first edit exits with an error, as sed does for a file that is not there,
    -- the copy of the schema returns the error of that edit, in the world behind it; the error of
    -- pg_dump is not reported. The target is reached and the group's role is granted before that.
    pub unstarted_dump-misreported :
        (w : W) (role : String) (e f : Err) (code : ℤ)
        → db.ping config.target_db_admin_dsn w ≡ ok tt
        → db.user_of config.target_db_user_dsn ≡ ok role
        → (db.grant_role config.target_db_admin_dsn
            (group_role config.cloud)
            (get_parent_role role)
            w).0
          ≡ ok tt
        → (dump_of shell db config (granted db config role w)).0.0 ≡ broken e
        → (first_edit (granted db config role w)).0.0 ≡ exited f code
        → execute (tools shell db) config copy_schema_state w ≡ (
          err (wrapped "error running sed command to comment create policy: " f),
          (first_edit (granted db config role w)).1,
        )
    unfolding execute tools
    unstarted_dump-misreported w role e f code p u g b x =
        let v = granted db config role w in
        copy_stops (tools shell db) config w role (file_at shell db v) (dump_of shell db config v).1
          (first_edit v).1 (wrapped "error running sed command to comment create policy: " f) p u g
          (dump_goes_on config.source_db_admin_dsn config.export_file_path v e b)
          (edit_stops (config.export_file_path <> file_at shell db v) (dump_of shell db config v).1
            f code x)
