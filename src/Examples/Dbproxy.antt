-- ===== src/Examples/Dbproxy.antt =====
-- A bouncer over files that are kept in a map, and the theorems about dbproxy at it.
use db_controller.Prelude.{
  pos, trim_suffix, String, false, [], ◌∷◌, Option, none, some, Map, insert, lookup, lookup-insert,
  or_empty, value, ◌≡◌, ◌≢◌, refl, ap, ◌∙◌, ◌<>◌, arith, eq_iff,
}
use db_controller.Api.Error.{Result, ok, err, not_found, wrapped}
use db_controller.Dbproxy.{Bouncer, Dsn, Host}
use db_controller.Dbproxy.Config.{new_config}
use db_controller.Dbproxy.Duplicate.{AreApart, duplicate-Files, write-Files}
use db_controller.Dbproxy.Ends.{Refused, start_bouncer-fails}
use db_controller.Dbproxy.Serve.{ProxyConfig, start_bouncer, updated, watcher_failed}
use db_controller.Dbproxy.Write.{
  err_duplicate_write, int16, parse_uri, read_dsn, render, sum, user_line, with_names, with_rest,
  write, write_if_new,
}
use db_controller.Dbproxy.Written.{Files}
use db_controller.HostParams.{atoi}

abbrev contents : Option String → Result String
contents none = err not_found
contents (some s) = ok s

abbrev dsn : String → Dsn
dsn port = record {
  scheme = "postgres";
  url = record {
    hostname = "db.example";
    port = port;
    username = "app_a";
    password = some "secret";
    path = "/app";
    ssl_mode = "require";
  };
}

abbrev store : Host (Map String)
store = record {
  read_file = λ path w. contents (lookup path w);
  open_truncated = λ path w. (ok tt, insert path "" w);
  append = λ path text w. (ok tt, insert path (value path w <> text) w);
  parse_url = λ s. ok (dsn s);
  split_host_port = λ s. ok ("127.0.0.1", "5432");
  beside = λ path name. name;
  md5 = λ s. s;
  quote = λ s. s;
  print_int = λ n. "5432";
  new_watcher = λ w. (ok tt, w);
  add_watch = λ path w. (ok tt, w);
  remove_watch = λ path w. (ok tt, w);
  says_unwatched = λ path w. false;
  wait_for_file = λ path w. (ok tt, w);
  run_script = λ path w. (ok tt, w);
}

kept :
    (path other new : String) (w : Map String)
    → path ≢ other
    → contents (lookup other (insert path new w)) ≡ contents (lookup other w)
kept path other new w h = rw lookup-insert (ground (arith, eq_iff path other, h))

put : (path new : String) (w : Map String) → contents (lookup path (insert path new w)) ≡ ok new
put path new w = rw lookup-insert (ground (arith, eq_iff path path))

read_text : (found : Option String) (old : String) → contents found ≡ ok old → or_empty found ≡ old
read_text none old h = cc
read_text (some s) old h = cc

store-Files : Files store
unfolding value
store-Files = record {
  truncated = λ path w _. put path "" w;
  truncated_other = λ path other w h. kept path other "" w h;
  appended = λ path text old w _ r.
      put path _ w ∙ ap (λ s. ok (s <> text)) (read_text (lookup path w) old r);
  appended_other = λ path other text w h. kept path other _ w h;
}

abbrev first : Bouncer (Map String)
first = record {
  config = record {
    config_path = "pgbouncer.ini";
    auth_path = "userlist.txt";
    dsn_path = "uri_dsn.txt";
    hash = "";
    local_db_name = "";
    local_host = "127.0.0.1";
    local_port = "5432";
    remote_host = "";
    remote_port = pos 0;
    user_name = "";
    password = "";
    ssl_mode = "";
    role_name = "";
  };
  world = ("uri_dsn.txt", "5432") ∷ [];
}

different : AreApart (first.config)
different = record {
  config_auth = λ e. cc;
  auth_config = λ e. cc;
  config_dsn = λ e. cc;
  auth_dsn = λ e. cc;
}

writes : (write store first).0 ≡ ok tt
unfolding write write_if_new parse_uri read_dsn with_names with_rest sum render user_line lookup
    insert value atoi int16 trim_suffix
writes = refl

write-Files_example :
    let t = (write store first).1 in
    (contents (lookup t.config.config_path t.world) ≡ ok (render store t.config))
    × (contents (lookup t.config.auth_path t.world) ≡ ok (user_line store t.config))
    × (contents (lookup t.config.dsn_path t.world)
        ≡ contents (lookup first.config.dsn_path first.world))
write-Files_example = write-Files store store-Files first different writes

duplicate-Files_example :
    let last = write store (write store first).1 in
    (last.0 ≡ err (err_duplicate_write store))
    × (contents (lookup (write store first).1.config.config_path last.1.world) ≡ ok "")
    × (contents (lookup (write store first).1.config.auth_path last.1.world) ≡ ok "")
duplicate-Files_example = duplicate-Files store store-Files first different (λ path w. refl) writes

abbrev manager : ProxyConfig
manager = record {
  db_credential_path = "uri_dsn.txt";
  pg_credential_path = "pgbouncer.ini";
  local_addr = "127.0.0.1:5432";
  pgb_start_script = "start.sh";
  pgb_reload_script = "reload.sh";
}

-- the file of the DSN is missing
abbrev no_files : Bouncer (Map String)
no_files = record first { world = [] }

unread :
    (start_bouncer store manager (updated ∷ watcher_failed ∷ []) no_files).0
    ≡ err (wrapped "pgbCfg.Write failed: " (wrapped "failed to read database dsn file: " not_found))
unfolding start_bouncer write lookup
unread = refl

start_bouncer-fails_example :
    Refused store manager no_files
      (wrapped "pgbCfg.Write failed: " (wrapped "failed to read database dsn file: " not_found))
start_bouncer-fails_example =
    start_bouncer-fails store manager (updated ∷ watcher_failed ∷ []) no_files
      (wrapped "pgbCfg.Write failed: " (wrapped "failed to read database dsn file: " not_found))
      unread

configured :
    new_config store (record {
      local_addr = "127.0.0.1:5432";
      dsn_path = "uri_dsn.txt";
      out_path = "pgbouncer.ini";
    })
    ≡ ok (first.config)
unfolding new_config
configured = refl
