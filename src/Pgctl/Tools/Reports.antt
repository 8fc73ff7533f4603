-- ===== src/Pgctl/Tools/Reports.antt =====
-- What the copy of the schema in pkg/pgctl/pgctl.go has run when it succeeds, and which ends of
-- pg_dump and psql pkg/pgctl/pgdump.go and pkg/pgctl/pgrestore.go report.
use db_controller.Prelude.{
  ℤ, String, Option, List, [], ◌∷◌, ◌≡◌, ◌≢◌, ◌<>◌, refl, subst, ◌∙◌, ap, arith,
}
use db_controller.Api.Error.{Err, Result, ok, ◌>>=◌}
use db_controller.Pgctl.Execute.{
  execute, execute_copy_schema, group_role, get_parent_role, undo_restore,
}
use db_controller.Pgctl.Postgres.{Config, Databases}
use db_controller.Pgctl.State.{State, copy_schema_state}
use db_controller.Pgctl.Tools.{
  Ending, succeeded, exited, broken, no_pipe, Shell, Dump, ToolResult, schema_dump, join, sed,
  policies_commented, partman_if_missing, cron_without_schema, tools, exec_dump, exec_restore,
  dump_options, get_file_name, restore_options, new_dump, new_restore, reported, dump_error,
  restore_error, modify_pg_dump_info,
}

module _ {W : Type 0} (db : Databases W) (config : Config) where
  -- the world behind the grant of the group's role
  abbrev pub granted : String → W → W
  granted role w =
      (db.grant_role config.target_db_admin_dsn (group_role config.cloud) (get_parent_role role)
        w).1

  -- what a copy that succeeds has called
  copy_calls :
      (w : W) (next : Option State)
      → (execute_copy_schema db config w).0 ≡ ok next
      → (role : String) × (file : String) × (db.user_of config.target_db_user_dsn ≡ ok role)
        × ((db.grant_role config.target_db_admin_dsn
              (group_role config.cloud)
              (get_parent_role role)
              w).0
            ≡ ok tt)
        × (let dumped =
              db.dump_schema config.source_db_admin_dsn config.export_file_path (granted role w) in
            let edited = db.modify_dump (config.export_file_path <> file) dumped.1 in
            (dumped.0 ≡ ok file)
            × (edited.0 ≡ ok tt)
            × ((db.restore config.target_db_user_dsn config.export_file_path file edited.1).0
                ≡ ok tt))
  unfolding execute_copy_schema undo_restore
  copy_calls w next h = ground (arith, h)

module _ {W : Type 0} (shell : Shell W) (db : Databases W) where
  abbrev pub file_at : W → String
  file_at w = "pub_" <> (shell.unix_time w <> ".sql")

  abbrev pub dump_command : String → String → W → List String
  dump_command dsn path w =
      "--schema-only"
      ∷ "--no-publication"
      ∷ "--no-subscriptions"
      ∷ "--no-privileges"
      ∷ "--no-owner"
      ∷ "--exclude-schema=ib"
      ∷ dsn
      ∷ "-Fp"
      ∷ "-v"
      ∷ ("-f" <> (path <> file_at w))
      ∷ []

  abbrev pub pg_dump : String → String → W → (Ending × String) × W
  pg_dump dsn path w = shell.run "pg_dump" (dump_command dsn path w) w

  abbrev pub psql : String → String → String → W → (Ending × String) × W
  psql dsn path file w =
      shell.run "psql" (dsn ∷ "-vON_ERROR_STOP=ON" ∷ ("--file=" <> (path <> file)) ∷ "-a" ∷ []) w

  -- what the dump returns behind the end of pg_dump
  abbrev pub dump_outcome : Ending → String → String → String → Dump → Result String
  dump_outcome end text file command named =
      (dump_error end text >>= λ error.
      ok (record { file_name = file; output = text; error = error; full_command = command }, named))
      >>= λ (done : ToolResult × Dump). reported shell done.0.error >>= λ _. ok done.0.file_name

  dump_ends :
      (end : Ending) (text file command name : String) (named : Dump)
      → dump_outcome end text file command named ≡ ok name
      → (name ≡ file) × ((e : Err) (code : ℤ) → end ≢ exited e code) × ((e : Err) → end ≢ no_pipe e)
  dump_ends succeeded text file command name named h = (cc, λ e code q. cc, λ e q. cc)
  dump_ends (exited e code) text file command name named h = cc
  dump_ends (broken e) text file command name named h = (cc, λ e code q. cc, λ e q. cc)
  dump_ends (no_pipe e) text file command name named h = cc

  restore_ends :
      (end : Ending) (text : String)
      → reported shell (restore_error end text) ≡ ok tt
      → end ≡ succeeded
  restore_ends succeeded text h = refl
  restore_ends (exited e code) text h = cc
  restore_ends (broken e) text h = cc
  restore_ends (no_pipe e) text h = cc

  dump_run :
      (dsn path : String) (w : W) (name : String)
      → ((tools shell db).dump_schema dsn path w).0 ≡ ok name
      → (name ≡ file_at w)
        × ((tools shell db).dump_schema dsn path w ≡ (ok name, (pg_dump dsn path w).1))
        × ((e : Err) (code : ℤ) → (pg_dump dsn path w).0.0 ≢ exited e code)
        × ((e : Err) → (pg_dump dsn path w).0.0 ≢ no_pipe e)
  unfolding tools exec_dump dump_options get_file_name new_dump
  dump_run dsn path w name h =
      let ran = pg_dump dsn path w in
      let named : Dump = record (schema_dump shell dsn path) { file_name = file_at w } in
      let (a, b, c) =
        dump_ends ran.0.0 ran.0.1 (file_at w) (join (dump_command dsn path w)) name named h in
      (a, ap (λ r. (r, ran.1)) h, b, c)

  restore_run :
      (dsn path file : String) (w : W)
      → ((tools shell db).restore dsn path file w).0 ≡ ok tt
      → (psql dsn path file w).0.0 ≡ succeeded
  unfolding tools exec_restore restore_options new_restore
  restore_run dsn path file w h = let ran = psql dsn path file w in restore_ends ran.0.0 ran.0.1 h

  modify_run :
      (path : String) (w : W)
      → (modify_pg_dump_info shell path w).0 ≡ ok tt
      → let a = sed shell policies_commented path w in
        let b = sed shell partman_if_missing path a.1 in
        let c = sed shell cron_without_schema path b.1 in
        (a.0.0 ≡ succeeded)
        × (b.0.0 ≡ succeeded)
        × (c.0.0 ≡ succeeded)
        × (modify_pg_dump_info shell path w ≡ (ok tt, c.1))
  unfolding modify_pg_dump_info
  modify_run path w h = ground (arith, h)

  module _ (config : Config) where
    abbrev pub dump_of : W → (Ending × String) × W
    dump_of w = pg_dump config.source_db_admin_dsn config.export_file_path w

    abbrev edits : String → W → (Ending × String) × (Ending × String) × ((Ending × String) × W)
    edits file w =
        let a = sed shell policies_commented (config.export_file_path <> file) w in
        let b = sed shell partman_if_missing (config.export_file_path <> file) a.1 in
        (a.0, b.0, sed shell cron_without_schema (config.export_file_path <> file) b.1)

    -- The ends of the programs that a copy of the schema runs, from the world behind the grant:
    -- pg_dump, which has its pipe and has not exited with a code, three edits of its file, and psql
    -- on that file.
    pub record Copied (file : String) (w : W) : Type 0 where
      pub no_exit : (e : Err) (code : ℤ) → (dump_of w).0.0 ≢ exited e code
      pub has_pipe : (e : Err) → (dump_of w).0.0 ≢ no_pipe e
      pub policies : (edits file (dump_of w).1).0.0 ≡ succeeded
      pub partman : (edits file (dump_of w).1).1.0 ≡ succeeded
      pub cron : (edits file (dump_of w).1).2.0.0 ≡ succeeded
      pub restored :
          (psql config.target_db_user_dsn config.export_file_path file
            (edits file (dump_of w).1).2.1).0.0
          ≡ succeeded

    -- A copy of the schema that succeeds has granted the group's role, and then pg_dump, the three
    -- edits of its file and psql have ended as `Copied` says.
    pub copy_schema-Copied :
        (w : W) (next : Option State)
        → (execute (tools shell db) config copy_schema_state w).0 ≡ ok next
        → (role : String) × (db.user_of config.target_db_user_dsn ≡ ok role)
          × ((db.grant_role config.target_db_admin_dsn
                (group_role config.cloud)
                (get_parent_role role)
                w).0
              ≡ ok tt)
          × Copied (file_at (granted db config role w)) (granted db config role w)
    unfolding execute tools
    copy_schema-Copied w next h =
        let (role, file, named, grants, calls) = copy_calls (tools shell db) config w next h in
        let (dump, modify, restore) = calls in
        let g = granted db config role w in
        let path = config.export_file_path in
        let (name, same, no_exit, has_pipe) =
          dump_run config.source_db_admin_dsn path g file dump in
        let v = (dump_of g).1 in
        let turned = ap (λ r. r.1) same in
        let (a, b, c, done) =
          modify_run (path <> file) v
            (subst (λ u. (modify_pg_dump_info shell (path <> file) u).0 ≡ ok tt) turned modify) in
        let restored =
          subst (λ u. ((tools shell db).restore config.target_db_user_dsn path file u).0 ≡ ok tt)
            (ap (λ u. (modify_pg_dump_info shell (path <> file) u).1) turned ∙ ap (λ r. r.1) done)
            restore in
        (
          role,
          named,
          grants,
          subst (λ f. Copied f g) name
              (record {
                no_exit = no_exit;
                has_pipe = has_pipe;
                policies = a;
                partman = b;
                cron = c;
                restored =
                    restore_run config.target_db_user_dsn path file (edits file v).2.1 restored;
              }),
        )
