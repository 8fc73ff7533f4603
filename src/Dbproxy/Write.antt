-- ===== src/Dbproxy/Write.antt =====
-- parseURI, the template and Write of dbproxy/pgbouncer/config.go.
use Prim.Native.Char.{code}
use Prim.Native.String.{[] as nil, ◌∷◌ as ◌:::◌}
use db_controller.Prelude.{
  ℕ, ℤ, pos, negsuc, ◌-◌, ◌%◌, String, not, ◌&&◌, Option, none, some, eqb, ltb, ◌==◌, ◌<>◌,
  trim_suffix, if◌then◌else◌,
}
use db_controller.Api.Error.{Err, message, wrapped}
use db_controller.Dbproxy.{Bouncer, Dsn, Host, PgbouncerConfig}
use db_controller.Exec.{Exec, fail, lift, modify, rescue, ◌>>=◌, ◌>>◌}
use db_controller.HostParams.{atoi}
use db_controller.Sql.{Url}

-- int16(n)
abbrev word16 : ℕ → ℤ
word16 m = if ltb m 32768 then pos m else negsuc (65535 - m)

unfoldable pub int16 : ℤ → ℤ
int16 (pos n) = word16 (n % 65536)
int16 (negsuc n) = word16 (65535 - (n % 65536))

-- the path without its first character, where it has one
abbrev pub db_name : String → String → String
db_name nil old = old
db_name (c ::: s) old = s

abbrev text_of : Option String → String
text_of none = ""
text_of (some s) = s

-- what parseURI sets before it reads the port, and behind that
unfoldable pub with_names : Url → PgbouncerConfig → PgbouncerConfig
with_names u c = record c {
  role_name = trim_suffix (trim_suffix u.username "_a") "_b";
  remote_host = u.hostname;
  user_name = u.username;
}

unfoldable pub with_rest : Url → ℤ → PgbouncerConfig → PgbouncerConfig
unfolding int16
with_rest u port c = record c {
  remote_port = int16 port;
  password = text_of u.password;
  local_db_name = db_name u.path c.local_db_name;
  ssl_mode = u.ssl_mode;
}

module _ {W : Type 0} (host : Host W) where
  open host use {read_file, open_truncated, append, parse_url, md5, quote, print_int}

  -- an Atoi that fails; whether the port has a wrong form or is too large is left out
  abbrev pub read_port : Url → Option ℤ → Exec PgbouncerConfig (Unit {0})
  read_port u none = fail (message ("strconv.Atoi: parsing " <> quote u.port))
  read_port u (some port) = modify (with_rest u port)

  unfoldable pub read_dsn : Dsn → Exec PgbouncerConfig (Unit {0})
  unfolding with_names with_rest atoi
  read_dsn d =
      if not (d.scheme == "postgres") && not (d.scheme == "postgresql")
      then fail (message ("invalid_scheme: " <> d.scheme))
      else (modify (with_names d.url) >> read_port d.url (atoi d.url.port))

  -- parseURI
  unfoldable pub parse_uri : String → Exec PgbouncerConfig (Unit {0})
  unfolding read_dsn
  parse_uri dsn = lift (parse_url dsn) >>= read_dsn

  -- templateText, executed
  unfoldable pub render : PgbouncerConfig → String
  render c =
      "\n[databases]\n"
      <> (c.local_db_name
          <> (" = host="
              <> (c.remote_host
                  <> (" port="
                      <> (print_int c.remote_port
                          <> (" dbname="
                              <> (c.local_db_name
                                  <> ("\n\n[pgbouncer]\nlisten_port = "
                                      <> (c.local_port
                                          <> ("\nlisten_addr = "
                                              <> (c.local_host
                                                  <> ("\nauth_type = trust\nauth_file = userlist.txt\nlogfile = pgbouncer.log\npidfile = pgbouncer.pid\nadmin_users = "
                                                      <> (c.user_name
                                                          <> ("\nremote_user_override = "
                                                            <> (c.user_name
                                                            <> ("\nremote_db_override = "
                                                            <> (c.local_db_name
                                                            <> ("\nignore_startup_parameters = extra_float_digits\nclient_tls_sslmode = prefer\nclient_tls_key_file=dbproxy-client.key\nclient_tls_cert_file=dbproxy-client.crt\nserver_tls_sslmode = "
                                                            <> (c.ssl_mode
                                                            <> ("\nserver_reset_query = SET ROLE "
                                                            <> (c.role_name
                                                            <> "\n#server_tls_key_file=dbproxy-server.key\n#server_tls_cert_file=dbproxy-server.crt\n")))))))))))))))))))))

  -- strings.Replace(s, "\"", "\"\"", -1)
  unfoldable double_quotes : String → String
  double_quotes nil = nil
  double_quotes (c ::: s) =
      let rest = double_quotes s in if eqb (code c) b'"' then c ::: (c ::: rest) else c ::: rest

  -- userBS
  unfoldable pub user_line : PgbouncerConfig → String
  unfolding double_quotes
  user_line c = quote c.user_name <> (" \"" <> (double_quotes c.password <> "\""))

  -- `m.Sum(userBS)`: the digest of the template behind the user's line
  unfoldable pub sum : PgbouncerConfig → String
  unfolding render user_line
  sum c = user_line c <> md5 (render c)

  -- ErrDuplicateWrite
  abbrev pub err_duplicate_write : Err
  err_duplicate_write = message "duplicate write"

  abbrev pub on_config : Exec PgbouncerConfig (Unit {0}) → Exec (Bouncer W) (Unit {0})
  on_config m s = ((m s.config).0, record s { config = (m s.config).1 })

  abbrev pub on_world : Exec W (Unit {0}) → Exec (Bouncer W) (Unit {0})
  on_world m s = ((m s.world).0, record s { world = (m s.world).1 })

  -- the part of Write behind the opening of the files
  unfoldable pub write_if_new : Exec (Bouncer W) (Unit {0})
  unfolding sum
  write_if_new s =
      (if sum s.config == ""
          then fail (message "empty config")
          else if sum s.config == s.config.hash
          then fail err_duplicate_write
          else (modify (λ t. record t { config = record (t.config) { hash = sum t.config } })
              >> (λ t. on_world (append t.config.config_path (render t.config)) t)
              >> (λ t. on_world (append t.config.auth_path (user_line t.config)) t)))
        s

  -- Write
  unfoldable pub write : Exec (Bouncer W) (Unit {0})
  write s =
      rescue (read_file s.config.dsn_path s.world) s
        (λ e. fail (wrapped "failed to read database dsn file: " e))
        (λ dsn.
          on_config (parse_uri dsn)
          >> (λ t. on_world (open_truncated t.config.config_path) t)
          >> (λ t. on_world (open_truncated t.config.auth_path) t)
          >> write_if_new)
