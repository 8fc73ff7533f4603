-- ===== src/Dbproxy/Duplicate.antt =====
-- The files behind Write of dbproxy/pgbouncer/config.go, and behind a second Write of the same DSN.
use text.Mathlib.TextLemmas.{nil-append}
use db_controller.Prelude.{String, true, false, ◌==◌, ◌≡◌, ◌≢◌, sym, ap, subst, ◌∙◌, eq_refl, arith}
use db_controller.Api.Error.{ok, err, wrapped}
use db_controller.Dbproxy.{Bouncer, Host, PgbouncerConfig}
use db_controller.Dbproxy.Write.{
  err_duplicate_write, parse_uri, render, sum, user_line, with_names, with_rest, write,
  write_if_new,
}
use db_controller.Dbproxy.Written.{Files, Written, body, opened, set, set_again, write_new, written}
use db_controller.Exec.{fail, rescue}

-- the three paths of a configuration are different
pub record AreDifferent (config auth dsn : String) : Type 0 where
  pub config_auth : config ≢ auth
  pub auth_config : auth ≢ config
  pub config_dsn : config ≢ dsn
  pub auth_dsn : auth ≢ dsn

abbrev pub AreApart : PgbouncerConfig → Type 0
AreApart c = AreDifferent c.config_path c.auth_path c.dsn_path

module _ {W : Type 0} (host : Host W) (files : Files host) where
  open host use {read_file, open_truncated, append}

  -- the files behind the opening of both
  opened_empty :
      (c : PgbouncerConfig) (w : W)
      → AreApart c
      → (open_truncated c.config_path w).0 ≡ ok tt
      → (open_truncated c.auth_path (open_truncated c.config_path w).1).0 ≡ ok tt
      → (read_file c.config_path (opened host c w) ≡ ok "")
        × (read_file c.auth_path (opened host c w) ≡ ok "")
        × (read_file c.dsn_path (opened host c w) ≡ read_file c.dsn_path w)
  opened_empty c w a o p =
      let w1 = (open_truncated c.config_path w).1 in
      (
        files.truncated_other c.auth_path c.config_path w1 a.auth_config
            ∙ files.truncated c.config_path w o,
        files.truncated c.auth_path w1 p,
        files.truncated_other c.auth_path c.dsn_path w1 a.auth_dsn
            ∙ files.truncated_other c.config_path c.dsn_path w a.config_dsn,
      )

  -- and behind both texts
  abbrev filled : PgbouncerConfig → W → W
  filled c w = (append c.auth_path (user_line host c) (append c.config_path (render host c) w).1).1

  filled_texts :
      (c : PgbouncerConfig) (w : W)
      → AreApart c
      → (append c.config_path (render host c) w).0 ≡ ok tt
      → (append c.auth_path (user_line host c) (append c.config_path (render host c) w).1).0 ≡ ok tt
      → read_file c.config_path w ≡ ok ""
      → read_file c.auth_path w ≡ ok ""
      → (read_file c.config_path (filled c w) ≡ ok (render host c))
        × (read_file c.auth_path (filled c w) ≡ ok (user_line host c))
        × (read_file c.dsn_path (filled c w) ≡ read_file c.dsn_path w)
  filled_texts c w a o p e f =
      let w1 = (append c.config_path (render host c) w).1 in
      (
        files.appended_other c.auth_path c.config_path (user_line host c) w1 a.auth_config
            ∙ files.appended c.config_path (render host c) "" w o e
            ∙ ap ok (nil-append (render host c)),
        files.appended c.auth_path (user_line host c) "" w1 p
              (files.appended_other c.config_path c.auth_path (render host c) w a.config_auth ∙ f)
            ∙ ap ok (nil-append (user_line host c)),
        files.appended_other c.auth_path c.dsn_path (user_line host c) w1 a.auth_dsn
            ∙ files.appended_other c.config_path c.dsn_path (render host c) w a.config_dsn,
      )

  -- A Write that succeeds leaves the template, executed for the configuration that it leaves, in one
  -- file, the line of the user in the other, and the file of the DSN as it is, if the three paths
  -- are different.
  pub write-Files :
      (s : Bouncer W)
      → AreApart s.config
      → (write host s).0 ≡ ok tt
      → let t = (write host s).1 in
        (read_file t.config.config_path t.world ≡ ok (render host t.config))
        × (read_file t.config.auth_path t.world ≡ ok (user_line host t.config))
        × (read_file t.config.dsn_path t.world ≡ read_file s.config.dsn_path s.world)
  unfolding with_names with_rest render user_line
  write-Files s apart h =
      let done = written host s h in
      let c = set done.url done.port s.config in
      let w = opened host c s.world in
      let (_, o, p, e) = write_new host (record { config = c; world = w }) done.rest in
      let (a, b, d) = opened_empty c s.world apart done.opens_config done.opens_auth in
      let (x, y, z) = filled_texts c w apart o p a b in
      subst
        (λ (t : Bouncer W).
          (read_file t.config.config_path t.world ≡ ok (render host t.config))
          × (read_file t.config.auth_path t.world ≡ ok (user_line host t.config))
          × (read_file t.config.dsn_path t.world ≡ read_file s.config.dsn_path s.world))
        (sym (ap (λ t. t.1) done.same ∙ e)) (x, y, z ∙ d)

  body_again :
      (dsn : String) (t : Bouncer W)
      → parse_uri host dsn t.config ≡ (ok tt, t.config)
      → (open_truncated t.config.config_path t.world).0 ≡ ok tt
      → (open_truncated t.config.auth_path (open_truncated t.config.config_path t.world).1).0
        ≡ ok tt
      → body host dsn t ≡ write_if_new host (record t { world = opened host t.config t.world })
  body_again dsn t p a b = ground (arith, p, a, b)

  -- a Write of what is written already comes as far as the test of the hash
  write_again :
      (t : Bouncer W) (dsn : String)
      → ((path : String) (w : W) → (open_truncated path w).0 ≡ ok tt)
      → read_file t.config.dsn_path t.world ≡ ok dsn
      → parse_uri host dsn t.config ≡ (ok tt, t.config)
      → write host t ≡ write_if_new host (record t { world = opened host t.config t.world })
  unfolding write
  write_again t dsn opens r p =
      ap
        (λ found.
          rescue found t (λ e. fail (wrapped "failed to read database dsn file: " e)) (body host))
        r
      ∙ body_again dsn t p (opens t.config.config_path t.world)
          (opens t.config.auth_path (open_truncated t.config.config_path t.world).1)

  refused :
      (t : Bouncer W)
      → (sum host t.config == "") ≡ false
      → (sum host t.config == t.config.hash) ≡ true
      → write_if_new host t ≡ (err (err_duplicate_write host), t)
  unfolding write_if_new
  refused t e same = ground (arith, e, same)

  -- behind a Write that succeeded
  second_write :
      (s : Bouncer W) (done : Written host s)
      → let c = set done.url done.port s.config in
        let t = record s {
          config = record c { hash = sum host c };
          world = filled c (opened host c s.world);
        } in
        ((path : String) (w : W) → (open_truncated path w).0 ≡ ok tt)
        → (sum host c == "") ≡ false
        → read_file c.dsn_path t.world ≡ read_file c.dsn_path s.world
        → write host t
          ≡ (err (err_duplicate_write host), record t { world = opened host t.config t.world })
  unfolding with_names with_rest sum render user_line
  second_write s done opens e r =
      let c = set done.url done.port s.config in
      let t = record s {
        config = record c { hash = sum host c };
        world = filled c (opened host c s.world);
      } in
      write_again t done.dsn opens (r ∙ done.read) (
        done.sets t.config
        ∙ ap (λ d. (ok tt, d)) (set_again done.url done.port s.config (sum host c)))
      ∙ refused (record t { world = opened host t.config t.world }) e (eq_refl (sum host c))

  -- A Write that succeeded, followed by another Write with the DSN as it is, where the three paths
  -- are different and every file can be opened: the second one fails with ErrDuplicateWrite, and
  -- leaves the file of the configuration and the file of the users empty.
  pub duplicate-Files :
      (s : Bouncer W)
      → AreApart s.config
      → ((path : String) (w : W) → (open_truncated path w).0 ≡ ok tt)
      → (write host s).0 ≡ ok tt
      → let t = (write host s).1 in
        let last = write host t in
        (last.0 ≡ err (err_duplicate_write host))
        × (read_file t.config.config_path last.1.world ≡ ok "")
        × (read_file t.config.auth_path last.1.world ≡ ok "")
  unfolding with_names with_rest render user_line
  duplicate-Files s apart opens h =
      let done = written host s h in
      let c = set done.url done.port s.config in
      let w = opened host c s.world in
      let (n, o, p, e) = write_new host (record { config = c; world = w }) done.rest in
      let (a, b, d) = opened_empty c s.world apart done.opens_config done.opens_auth in
      let (x, y, z) = filled_texts c w apart o p a b in
      let v = filled c w in
      let last = second_write s done opens n (z ∙ d) in
      let (empty, empty', _) =
        opened_empty c v apart (opens c.config_path v)
          (opens c.auth_path (open_truncated c.config_path v).1) in
      subst
        (λ (t : Bouncer W).
          ((write host t).0 ≡ err (err_duplicate_write host))
          × (read_file t.config.config_path (write host t).1.world ≡ ok "")
          × (read_file t.config.auth_path (write host t).1.world ≡ ok ""))
        (sym (ap (λ t. t.1) done.same ∙ e))
        (
          ap (λ r. r.0) last,
          ap (λ r. read_file c.config_path r.1.world) last ∙ empty,
          ap (λ r. read_file c.auth_path r.1.world) last ∙ empty',
        )
