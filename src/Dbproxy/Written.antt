-- ===== src/Dbproxy/Written.antt =====
-- What Write of dbproxy/pgbouncer/config.go has done when it succeeds.
use Prim.Native.String.{[] as nil, ◌∷◌ as ◌:::◌}
use db_controller.Prelude.{
  ℤ, String, Bool, true, false, not, ◌&&◌, Option, none, some, ◌<>◌, ◌==◌, ◌≡◌, ◌≢◌, refl, sym, ap,
  ◌∙◌, if◌then◌else◌, arith,
}
use db_controller.Api.Error.{Result, ok, err, panic, message, wrapped}
use db_controller.Dbproxy.{Bouncer, Dsn, Host, PgbouncerConfig}
use db_controller.Dbproxy.Write.{
  db_name, on_config, on_world, read_port, parse_uri, read_dsn, render, sum, user_line, with_names,
  with_rest, write, write_if_new,
}
use db_controller.Exec.{Exec, fail, lift, modify, rescue, ◌>>=◌, ◌>>◌}
use db_controller.HostParams.{atoi}
use db_controller.Sql.{Url}

-- What files are relied on for: a file that was opened with O_TRUNC is empty, what is appended is
-- read back, and both leave the other files as they are.
pub record Files {W : Type 0} (host : Host W) : Type 0 where
  pub truncated :
      (path : String) (w : W)
      → (host.open_truncated path w).0 ≡ ok tt
      → host.read_file path (host.open_truncated path w).1 ≡ ok ""
  pub truncated_other :
      (path other : String) (w : W)
      → path ≢ other
      → host.read_file other (host.open_truncated path w).1 ≡ host.read_file other w
  pub appended :
      (path text old : String) (w : W)
      → (host.append path text w).0 ≡ ok tt
      → host.read_file path w ≡ ok old
      → host.read_file path (host.append path text w).1 ≡ ok (old <> text)
  pub appended_other :
      (path other text : String) (w : W)
      → path ≢ other
      → host.read_file other (host.append path text w).1 ≡ host.read_file other w

-- what a DSN that is read sets
abbrev pub set : Url → ℤ → PgbouncerConfig → PgbouncerConfig
set u port c = with_rest u port (with_names u c)

db_name-again : (path old : String) → db_name path (db_name path old) ≡ db_name path old
db_name-again nil old = refl
db_name-again (c ::: s) old = refl

-- The same DSN read again sets what is set already, whatever the hash is.
pub set_again :
    (u : Url) (port : ℤ) (c : PgbouncerConfig) (hash : String)
    → let d = record (set u port c) { hash = hash } in set u port d ≡ d
unfolding with_names with_rest
set_again u port c hash =
    ap (λ name. record (set u port c) { hash = hash; local_db_name = name })
      (db_name-again u.path c.local_db_name)

module _ {W : Type 0} (host : Host W) where
  abbrev pub Sets : String → Url → ℤ → Type 0
  Sets dsn u port = (c : PgbouncerConfig) → parse_uri host dsn c ≡ (ok tt, set u port c)

  parsed_port :
      (d : Dsn) (bad : Bool) (text : String) (port : Option ℤ) (c : PgbouncerConfig)
      → ((if bad
            then fail (message text)
            else (modify (with_names d.url) >> read_port host d.url port))
          c).0
        ≡ ok tt
      → (n : ℤ) × ((c' : PgbouncerConfig)
          → (if bad
                then fail (message text)
                else (modify (with_names d.url) >> read_port host d.url port))
              c'
            ≡ (ok tt, set d.url n c'))
  parsed_port d true text port c h = cc
  parsed_port d false text none c h = cc
  parsed_port d false text (some n) c h = (n, λ c'. refl)

  parsed_dsn :
      (found : Result Dsn) (c : PgbouncerConfig)
      → ((lift found >>= read_dsn host) c).0 ≡ ok tt
      → (u : Url) × (port : ℤ) × ((c' : PgbouncerConfig)
          → (lift found >>= read_dsn host) c' ≡ (ok tt, set u port c'))
  unfolding read_dsn
  parsed_dsn (ok d) c h =
      let (port, sets) =
        parsed_port d (not (d.scheme == "postgres") && not (d.scheme == "postgresql"))
          ("invalid_scheme: " <> d.scheme) (atoi d.url.port) c h in
      (d.url, port, sets)
  parsed_dsn (err e) c h = cc
  parsed_dsn panic c h = cc

  parsed :
      (dsn : String) (c : PgbouncerConfig)
      → (parse_uri host dsn c).0 ≡ ok tt
      → (u : Url) × (port : ℤ) × Sets dsn u port
  unfolding parse_uri
  parsed dsn c h = parsed_dsn (host.parse_url dsn) c h

  pub write_new :
      (s : Bouncer W)
      → (write_if_new host s).0 ≡ ok tt
      → let c = s.config in
        let first = host.append c.config_path (render host c) s.world in
        let second = host.append c.auth_path (user_line host c) first.1 in
        ((sum host c == "") ≡ false)
        × (first.0 ≡ ok tt)
        × (second.0 ≡ ok tt)
        × ((write_if_new host s).1
            ≡ record s { config = record c { hash = sum host c }; world = second.1 })
  unfolding write_if_new
  write_new s h = ground (arith, h)

  abbrev pub body : String → Exec (Bouncer W) (Unit {0})
  body dsn =
      on_config host (parse_uri host dsn)
      >> (λ t. on_world host (host.open_truncated t.config.config_path) t)
      >> (λ t. on_world host (host.open_truncated t.config.auth_path) t)
      >> write_if_new host

  body_parses :
      (dsn : String) (s : Bouncer W)
      → (body dsn s).0 ≡ ok tt
      → (parse_uri host dsn s.config).0 ≡ ok tt
  body_parses dsn s h = ground (arith, h)

  -- the world behind the opening of both files
  abbrev pub opened : PgbouncerConfig → W → W
  opened c w = (host.open_truncated c.auth_path (host.open_truncated c.config_path w).1).1

  body_opens :
      (dsn : String) (s : Bouncer W) (c : PgbouncerConfig)
      → parse_uri host dsn s.config ≡ (ok tt, c)
      → (body dsn s).0 ≡ ok tt
      → ((host.open_truncated c.config_path s.world).0 ≡ ok tt)
        × ((host.open_truncated c.auth_path (host.open_truncated c.config_path s.world).1).0
            ≡ ok tt)
        × (body dsn s ≡ write_if_new host (record { config = c; world = opened c s.world }))
  body_opens dsn s c p h = ground (arith, p, h)

  write_reads :
      (found : Result String) (s : Bouncer W)
      → (rescue found s (λ e. fail (wrapped "failed to read database dsn file: " e)) body).0 ≡ ok tt
      → (dsn : String) × (found ≡ ok dsn)
        × ((body dsn s).0 ≡ ok tt)
        × (rescue found s (λ e. fail (wrapped "failed to read database dsn file: " e)) body
            ≡ body dsn s)
  write_reads (ok dsn) s h = (dsn, refl, h, refl)
  write_reads (err e) s h = cc
  write_reads panic s h = cc

  -- what a Write that succeeds has done
  pub record Written (s : Bouncer W) : Type 0 where
    pub dsn : String
    pub url : Url
    pub port : ℤ
    pub read : host.read_file s.config.dsn_path s.world ≡ ok dsn
    pub sets : Sets dsn url port
    pub opens_config : (host.open_truncated (set url port s.config).config_path s.world).0 ≡ ok tt
    pub opens_auth :
        (host.open_truncated
          (set url port s.config).auth_path
          (host.open_truncated (set url port s.config).config_path s.world).1).0
        ≡ ok tt
    pub rest :
        (write_if_new host (record {
          config = set url port s.config;
          world = opened (set url port s.config) s.world;
        })).0
        ≡ ok tt
    pub same :
        write host s
        ≡ write_if_new host (record {
          config = set url port s.config;
          world = opened (set url port s.config) s.world;
        })

  pub written : (s : Bouncer W) → (write host s).0 ≡ ok tt → Written s
  unfolding write
  written s h =
      let (dsn, read, k, e) = write_reads (host.read_file s.config.dsn_path s.world) s h in
      let (u, port, sets) = parsed dsn s.config (body_parses dsn s k) in
      let (a, b, f) = body_opens dsn s (set u port s.config) (sets s.config) k in
      record {
        dsn = dsn;
        url = u;
        port = port;
        read = read;
        sets = sets;
        opens_config = a;
        opens_auth = b;
        rest = ap (λ t. t.0) (sym f) ∙ k;
        same = e ∙ f;
      }
