-- ===== src/Dbproxy/Ends.antt =====
-- How Start of dbproxy/dbproxy.go ends.
use db_controller.Prelude.{
  Bool, true, false, List, [], ◌∷◌, ◌≡◌, ◌⊎◌, arith, inl, inr, refl, sym, subst, if◌then◌else◌,
}
use db_controller.Api.Error.{Err, Result, ok, err, panic, wrapped}
use db_controller.Dbproxy.{Bouncer, Host}
use db_controller.Dbproxy.Serve.{
  Event, updated, watcher_failed, ProxyConfig, handle_event, serve, start_bouncer, stop_watching,
  logged, needed, run,
}
use db_controller.Dbproxy.Write.{write}
use db_controller.Exec.{Exec, continue, rescue, pure, fail, crash, attempt, ◌>>◌}

-- the process goes on or has ended, without an error that is returned
abbrev pub NoError : Result (Unit {0}) → Type 0
NoError r = (r ≡ ok tt) ⊎ (r ≡ panic)

module _ {S : Type 0} where
  then-NoError :
      (m k : Exec S (Unit {0})) (s : S)
      → NoError (m s).0
      → ((t : S) → NoError (k t).0)
      → NoError ((m >> k) s).0
  then-NoError m k s (inl e) h =
      subst (λ r. NoError (continue r (m s).1 (λ _. k)).0) (sym e) (h (m s).1)
  then-NoError m k s (inr e) h =
      subst (λ r. NoError (continue r (m s).1 (λ _. k)).0) (sym e) (inr refl)

  -- an error behind such steps is the error before them
  then-err_cases :
      (r : Result (Unit {0})) (t : S) (k : Exec S (Unit {0})) (e : Err)
      → NoError (k t).0
      → (continue r t (λ _. k)).0 ≡ err e
      → r ≡ err e
  then-err_cases (ok tt) t k e (inl p) q = cc
  then-err_cases (ok tt) t k e (inr p) q = cc
  then-err_cases (err f) t k e h q = cc
  then-err_cases panic t k e h q = cc

  then-err :
      (m k : Exec S (Unit {0})) (s : S) (e : Err)
      → ((t : S) → NoError (k t).0)
      → ((m >> k) s).0 ≡ err e
      → (m s).0 ≡ err e
  then-err m k s e h q = then-err_cases (m s).0 (m s).1 k e (h (m s).1) q

  attempt-NoError :
      (r : Result (Unit {0})) (s : S) (f : Err → Exec S (Unit {0}))
      (k : Unit {0} → Exec S (Unit {0}))
      → ((e : Err) (t : S) → NoError (f e t).0)
      → ((t : S) → NoError (k tt t).0)
      → NoError (rescue r s f k).0
  attempt-NoError (ok tt) s f k g h = h s
  attempt-NoError (err e) s f k g h = g e s
  attempt-NoError panic s f k g h = inr refl

module _ {W : Type 0} (host : Host W) (cfg : ProxyConfig) where
  unwatched : (b : Bool) (t : Bouncer W) → NoError ((if b then pure tt else crash) t).0
  unwatched true t = inl refl
  unwatched false t = inr refl

  logged-NoError :
      (m : Exec (Bouncer W) (Unit {0})) (s : Bouncer W) → NoError (logged host cfg m s).0
  logged-NoError m s =
      attempt-NoError (m s).0 (m s).1 (λ _. pure tt) (λ _. pure tt) (λ _ _. inl refl)
        (λ _. inl refl)

  needed-NoError :
      (m : Exec (Bouncer W) (Unit {0})) (s : Bouncer W) → NoError (needed host cfg m s).0
  needed-NoError m s =
      attempt-NoError (m s).0 (m s).1 (λ _. crash) (λ _. pure tt) (λ _ _. inr refl) (λ _. inl refl)

  stop_watching-NoError : (s : Bouncer W) → NoError (stop_watching host cfg s).0
  unfolding stop_watching
  stop_watching-NoError s =
      let t = run host cfg (host.remove_watch cfg.db_credential_path) s in
      attempt-NoError t.0 t.1
        (λ _. if host.says_unwatched cfg.db_credential_path s.world then pure tt else crash)
        (λ _. pure tt) (λ _ u. unwatched (host.says_unwatched cfg.db_credential_path s.world) u)
        (λ _. inl refl)

  handle_event-NoError : (e : Event) (s : Bouncer W) → NoError (handle_event host cfg e s).0
  unfolding handle_event
  handle_event-NoError watcher_failed s = inl refl
  handle_event-NoError updated s =
      let watch = needed host cfg (run host cfg (host.add_watch cfg.db_credential_path)) in
      let wait = logged host cfg (run host cfg (host.wait_for_file cfg.db_credential_path)) in
      let reload = logged host cfg (run host cfg (host.run_script cfg.pgb_reload_script)) in
      let stop = stop_watching host cfg in
      then-NoError ((stop >> wait) >> watch) (attempt (write host) (λ _. pure tt) (λ _. reload)) s
        (then-NoError (stop >> wait) watch s
          (then-NoError stop wait s (stop_watching-NoError s)
            (logged-NoError (run host cfg (host.wait_for_file cfg.db_credential_path))))
          (needed-NoError (run host cfg (host.add_watch cfg.db_credential_path))))
        (λ t.
          attempt-NoError (write host t).0 (write host t).1 (λ _. pure tt) (λ _. reload)
            (λ _ _. inl refl)
            (logged-NoError (run host cfg (host.run_script cfg.pgb_reload_script))))

  serve-NoError : (events : List Event) (s : Bouncer W) → NoError (serve host cfg events s).0
  unfolding serve
  serve-NoError [] s = inl refl
  serve-NoError (e ∷ events) s =
      then-NoError (handle_event host cfg e) (serve host cfg events) s (handle_event-NoError e s)
        (serve-NoError events)

  abbrev first : Exec (Bouncer W) (Unit {0})
  first = attempt (write host) (λ f. fail (wrapped "pgbCfg.Write failed: " f)) (λ _. pure tt)

  abbrev script : Exec (Bouncer W) (Unit {0})
  script = run host cfg (host.run_script cfg.pgb_start_script)

  abbrev watcher : Exec (Bouncer W) (Unit {0})
  watcher =
      attempt (run host cfg host.new_watcher) (λ f. fail (wrapped "fsnotify.NewWatcher failed: " f))
        (λ _. pure tt)

  -- What Start behind NewConfig returns an error for: the first Write fails, or, behind that Write
  -- and the start script, the watcher cannot be opened.
  pub data Refused (s : Bouncer W) (e : Err) : Type 0 where
    unwritten :
        (f : Err) → (write host s).0 ≡ err f → e ≡ wrapped "pgbCfg.Write failed: " f → Refused s e
    no_watcher :
        (f : Err)
        → (write host s).0 ≡ ok tt
        → (host.run_script cfg.pgb_start_script (write host s).1.world).0 ≡ ok tt
        → (host.new_watcher (host.run_script cfg.pgb_start_script (write host s).1.world).1).0
          ≡ err f
        → e ≡ wrapped "fsnotify.NewWatcher failed: " f
        → Refused s e

  begin_cases :
      (m k n : Exec (Bouncer W) (Unit {0})) (s : Bouncer W) (e : Err)
      → ((attempt m (λ f. fail (wrapped "pgbCfg.Write failed: " f)) (λ _. pure tt)
            >> needed host cfg k
            >> attempt n (λ f. fail (wrapped "fsnotify.NewWatcher failed: " f)) (λ _. pure tt))
          s).0
        ≡ err e
      → ((f : Err) × ((m s).0 ≡ err f) × (e ≡ wrapped "pgbCfg.Write failed: " f))
        ⊎ ((f : Err) × ((m s).0 ≡ ok tt)
            × ((k (m s).1).0 ≡ ok tt)
            × ((n (k (m s).1).1).0 ≡ err f)
            × (e ≡ wrapped "fsnotify.NewWatcher failed: " f))
  begin_cases m k n s e q = ground (arith, q)

  begins :
      (s : Bouncer W) (e : Err)
      → (((first >> needed host cfg script) >> watcher) s).0 ≡ err e
      → Refused s e
  begins s e q = elim (begin_cases (write host) script (run host cfg host.new_watcher) s e q) [
    | inl (f, a, b) ↦ unwritten f a b
    | inr (f, a, b, c, d) ↦ no_watcher f a b c d
  ]

  -- Start behind NewConfig returns an error only where the first Write fails, or the watcher cannot
  -- be opened behind that Write and the start script, and then the error of that call, as `Refused`
  -- says: no later error of the watcher, of the files, of a Write or of a script is returned,
  -- whatever events come.
  pub start_bouncer-fails :
      (events : List Event) (s : Bouncer W) (e : Err)
      → (start_bouncer host cfg events s).0 ≡ err e
      → Refused s e
  unfolding start_bouncer
  start_bouncer-fails events s e q =
      let watch = run host cfg (host.add_watch cfg.db_credential_path) in
      let before = (first >> needed host cfg script) >> watcher in
      begins s e (
        then-err before (needed host cfg watch) s e (needed-NoError watch) (
          then-err (before >> needed host cfg watch) (serve host cfg events) s e
            (serve-NoError events) q))
