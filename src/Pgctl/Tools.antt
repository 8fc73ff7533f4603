-- ===== src/Pgctl/Tools.antt =====
-- pkg/pgctl/pgdump.go and pkg/pgctl/pgrestore.go: the command lines of pg_dump, sed and psql, what
-- becomes of their ends, and the copy of the schema that pkg/pgctl/pgctl.go makes of them.
-- `Shell` runs the programs. Its text is what streamExecOutput collects, taken as complete when the
-- program has ended.
pub mod Reports
pub mod Misreported
use db_controller.Prelude.{
  ℤ, pos, String, Bool, true, false, Option, none, some, List, [], ◌∷◌, ◌++◌, ◌<>◌, ◌==◌,
  if◌then◌else◌,
}
use db_controller.Api.Error.{Err, Result, ok, err, panic, wrapped, ◌>>=◌}
use db_controller.Exec.{Exec, pure, fail, attempt, ◌>>◌}
use db_controller.Pgctl.Postgres.{Databases}

-- How a program ends. `no_pipe` stands for StderrPipe that fails, with the program not run; `broken`
-- for the other errors that are no ExitError, as when the program is not found or does not start.
pub data Ending : Type 0 where
  succeeded : Ending
  exited : Err → ℤ → Ending
  broken : Err → Ending
  no_pipe : Err → Ending

pub record Shell (W : Type 0) : Type 0 where
  pub run : String → List String → W → (Ending × String) × W
  -- time.Now().Unix(), as text
  pub unix_time : W → String
  -- runtime.GOOS
  pub os : String

-- Result and ResultError, of the package pgctl
pub record ResultError : Type 0 where
  pub error : Err
  pub cmd_output : String
  pub exit_code : ℤ

pub record ToolResult : Type 0 where
  pub file_name : String
  pub output : String
  pub error : Option ResultError
  pub full_command : String

-- strings.Join with a space
abbrev join_from : String → List String → String
join_from s [] = s
join_from s (t ∷ rest) = s <> (" " <> join_from t rest)

unfoldable pub join : List String → String
join [] = ""
join (s ∷ rest) = join_from s rest

pub record Dump : Type 0 where
  pub dsn_uri : String
  pub verbose : Bool
  pub path : String
  pub format : Option String
  pub options : List String
  pub file_name : String

unfoldable pub new_dump : String → Dump
new_dump dsn = record {
  dsn_uri = dsn;
  verbose = false;
  path = "";
  format = none;
  options = [];
  file_name = "";
}

abbrev format_option : Option String → String
format_option (some f) = "-F" <> f
format_option none = "-Fp"

-- dumpOptions
unfoldable pub dump_options : Dump → List String
dump_options x =
    (x.options ++ (x.dsn_uri ∷ []))
    ++ (format_option x.format ∷ (if x.verbose then "-v" ∷ [] else []))

pub record Restore : Type 0 where
  pub dsn_uri : String
  pub verbose : Bool
  pub path : String
  pub options : List String
  pub schemas : List String

unfoldable pub new_restore : String → Restore
new_restore dsn = record {
  dsn_uri = dsn;
  verbose = false;
  path = "";
  options = [];
  schemas = "public" ∷ [];
}

-- restoreOptions
unfoldable pub restore_options : Restore → List String
restore_options x = x.options ++ (if x.verbose then "-a" ∷ [] else [])

-- What Dump.Exec makes of the end of pg_dump: it looks for an ExitError only, and reads from the
-- pipe that it did not get.
abbrev pub dump_error : Ending → String → Result (Option ResultError)
dump_error succeeded output = ok none
dump_error (exited e code) output =
    ok (some (record { error = e; cmd_output = output; exit_code = code }))
dump_error (broken e) output = ok none
dump_error (no_pipe e) output = panic

-- what Restore.Exec and DropSchemas make of the end of psql
abbrev pub restore_error : Ending → String → Option ResultError
restore_error succeeded output = none
restore_error (exited e code) output =
    some (record { error = e; cmd_output = output; exit_code = code })
restore_error (broken e) output =
    some (record { error = e; cmd_output = output; exit_code = pos 0 })
restore_error (no_pipe e) output = some (record { error = e; cmd_output = ""; exit_code = pos 0 })

-- the edits of modifyPgDumpInfo
abbrev pub policies_commented : String
policies_commented =
    "/^CREATE POLICY cron_job_/s/^/-- commented by dbc to avoid duplicate conflict during restore \\n--/"

abbrev pub partman_if_missing : String
partman_if_missing = "s/CREATE SCHEMA partman;/CREATE SCHEMA IF NOT EXISTS partman;/"

abbrev pub cron_without_schema : String
cron_without_schema =
    "s/CREATE EXTENSION IF NOT EXISTS pg_cron WITH SCHEMA public;/CREATE EXTENSION IF NOT EXISTS pg_cron;/"

module _ {W : Type 0} (shell : Shell W) where
  open shell use {run, unix_time, os}

  -- GetFileName, with newFileName
  unfoldable pub get_file_name : Dump → W → String
  get_file_name x w = if x.file_name == "" then "pub_" <> (unix_time w <> ".sql") else x.file_name

  -- Dump.Exec, which keeps the name of the file
  unfoldable pub exec_dump : Dump → Exec W (ToolResult × Dump)
  unfolding dump_options get_file_name join
  exec_dump x w =
      let name = get_file_name x w in
      let named = record x { file_name = name } in
      let options = dump_options named ++ (("-f" <> (x.path <> name)) ∷ []) in
      let ran = run "pg_dump" options w in
      (
        dump_error ran.0.0 ran.0.1 >>= λ error. ok (
          record { file_name = name; output = ran.0.1; error = error; full_command = join options },
          named,
        ),
        ran.1,
      )

  -- Restore.Exec
  unfoldable pub exec_restore : Restore → String → W → ToolResult × W
  unfolding restore_options join
  exec_restore x filename w =
      let options =
        (x.dsn_uri ∷ "-vON_ERROR_STOP=ON" ∷ ("--file=" <> (x.path <> filename)) ∷ [])
        ++ restore_options x in
      let ran = run "psql" options w in
      (
        record {
          file_name = "";
          output = ran.0.1;
          error = restore_error ran.0.0 ran.0.1;
          full_command = join options;
        },
        ran.1,
      )

  abbrev drop_schema_sql : String
  drop_schema_sql =
      "\n        DO $$ DECLARE\n            r RECORD;\n        BEGIN\n            FOR r IN (SELECT nspname FROM pg_namespace WHERE nspname NOT IN ('pg_catalog', 'information_schema', 'pg_toast') AND nspname !~ '^pg_temp_') LOOP\n                EXECUTE 'DROP SCHEMA IF EXISTS ' || quote_ident(r.nspname) || ' CASCADE';\n            END LOOP;\n        END $$;\n    "

  -- DropSchemas
  unfoldable pub exec_drop_schemas : Restore → W → ToolResult × W
  exec_drop_schemas x w =
      let ran = run "psql" (x.dsn_uri ∷ "-c" ∷ drop_schema_sql ∷ []) w in
      (
        record {
          file_name = "";
          output = ran.0.1;
          error = restore_error ran.0.0 ran.0.1;
          full_command = "";
        },
        ran.1,
      )

  -- the outcome of a Run
  abbrev pub outcome : Ending → Result (Unit {0})
  outcome succeeded = ok tt
  outcome (exited e code) = err e
  outcome (broken e) = err e
  outcome (no_pipe e) = err e

  -- one edit by sed
  abbrev pub sed : String → String → W → (Ending × String) × W
  sed script path w = run "sed" ((if os == "darwin" then "-i ''" else "-i") ∷ script ∷ path ∷ []) w

  abbrev edit : String → String → Exec W (Unit {0})
  edit script path w = (outcome (sed script path w).0.0, (sed script path w).1)

  abbrev pub edit_or : String → String → String → Exec W (Unit {0})
  edit_or script path text = attempt (edit script path) (λ e. fail (wrapped text e)) pure

  -- modifyPgDumpInfo
  unfoldable pub modify_pg_dump_info : String → Exec W (Unit {0})
  modify_pg_dump_info path =
      edit_or policies_commented path "error running sed command to comment create policy: "
      >> edit_or partman_if_missing path
          "error running sed command to add if not exists to partman schema creation: "
      >> edit_or cron_without_schema path
          "error running sed command to create pg_cron without specifying the schema: "

  abbrev pub reported : Option ResultError → Result (Unit {0})
  reported none = ok tt
  reported (some e) = err e.error

  -- the dump that copy_schema_state asks for
  abbrev pub schema_dump : String → String → Dump
  schema_dump dsn path = record (new_dump dsn) {
    format = some "p";
    path = path;
    verbose = true;
    options =
        "--schema-only" ∷ "--no-publication" ∷ "--no-subscriptions" ∷ "--no-privileges"
        ∷ "--no-owner" ∷ "--exclude-schema=ib" ∷ [];
  }

  abbrev schema_restore : String → String → Restore
  schema_restore dsn path = record (new_restore dsn) { verbose = true; path = path }

  -- The operations that copy_schema_state calls.
  unfoldable pub tools : Databases W → Databases W
  unfolding new_dump new_restore exec_dump exec_restore exec_drop_schemas modify_pg_dump_info
  tools db = record db {
    dump_schema = λ dsn path w.
        let r = exec_dump (schema_dump dsn path) w in
        ((r.0 >>= λ done. reported done.0.error >>= λ _. ok done.0.file_name), r.1);
    modify_dump = modify_pg_dump_info;
    restore = λ dsn path file w.
        let r = exec_restore (schema_restore dsn path) file w in (reported r.0.error, r.1);
    drop_schemas =
        λ dsn w. let r = exec_drop_schemas (new_restore dsn) w in (reported r.0.error, r.1);
  }
