-- ===== src/Dbproxy/Serve.antt =====
-- Start of dbproxy/dbproxy.go: the first configuration, and the loop over the watcher's events. A call
-- of log.Fatal or os.Exit ends the process, which is `crash` here.
use db_controller.Prelude.{String, List, [], ◌∷◌, if◌then◌else◌}
use db_controller.Api.Error.{wrapped}
use db_controller.Dbproxy.{Bouncer, Host}
use db_controller.Dbproxy.Config.{new_config}
use db_controller.Dbproxy.Write.{write}
use db_controller.Exec.{Exec, pure, fail, crash, attempt, rescue, ◌>>◌}

-- Config of the manager
pub record ProxyConfig : Type 0 where
  pub db_credential_path : String
  pub pg_credential_path : String
  pub local_addr : String
  pub pgb_start_script : String
  pub pgb_reload_script : String

pub data Event : Type 0 where
  updated : Event
  watcher_failed : Event

module _ {W : Type 0} (host : Host W) (cfg : ProxyConfig) where
  open host use {new_watcher, add_watch, remove_watch, says_unwatched, wait_for_file, run_script}

  abbrev pub run : Exec W (Unit {0}) → Exec (Bouncer W) (Unit {0})
  run m s = ((m s.world).0, record s { world = (m s.world).1 })

  -- a call whose error is only logged
  abbrev pub logged : Exec (Bouncer W) (Unit {0}) → Exec (Bouncer W) (Unit {0})
  logged m = attempt m (λ _. pure tt) (λ _. pure tt)

  -- a call whose error ends the process
  abbrev pub needed : Exec (Bouncer W) (Unit {0}) → Exec (Bouncer W) (Unit {0})
  needed m = attempt m (λ _. crash) (λ _. pure tt)

  unfoldable pub stop_watching : Exec (Bouncer W) (Unit {0})
  stop_watching s =
      attempt (run (remove_watch cfg.db_credential_path))
        (λ _. if says_unwatched cfg.db_credential_path s.world then pure tt else crash)
        (λ _. pure tt) s

  -- One event. Whatever Write fails with, a duplicate too, is logged, and nothing is reloaded.
  unfoldable pub handle_event : Event → Exec (Bouncer W) (Unit {0})
  unfolding stop_watching
  handle_event watcher_failed = pure tt
  handle_event updated =
      stop_watching
      >> logged (run (wait_for_file cfg.db_credential_path))
      >> needed (run (add_watch cfg.db_credential_path))
      >> attempt (write host) (λ _. pure tt) (λ _. logged (run (run_script cfg.pgb_reload_script)))

  -- the loop, over the events until the context is done
  unfoldable pub serve : List Event → Exec (Bouncer W) (Unit {0})
  unfolding handle_event
  serve [] = pure tt
  serve (e ∷ events) = handle_event e >> serve events

  -- Start, behind NewConfig
  unfoldable pub start_bouncer : List Event → Exec (Bouncer W) (Unit {0})
  unfolding serve
  start_bouncer events =
      attempt (write host) (λ e. fail (wrapped "pgbCfg.Write failed: " e)) (λ _. pure tt)
      >> needed (run (run_script cfg.pgb_start_script))
      >> attempt (run new_watcher) (λ e. fail (wrapped "fsnotify.NewWatcher failed: " e))
          (λ _. pure tt)
      >> needed (run (add_watch cfg.db_credential_path))
      >> serve events

  unfoldable pub start : List Event → Exec W (Unit {0})
  unfolding new_config start_bouncer
  start events w =
      rescue
        (new_config host (record {
          local_addr = cfg.local_addr;
          dsn_path = cfg.db_credential_path;
          out_path = cfg.pg_credential_path;
        }))
        w fail
        (λ c w'.
          let s = start_bouncer events (record { config = c; world = w' }) in (s.0, s.1.world))
