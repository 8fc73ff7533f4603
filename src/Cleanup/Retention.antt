-- ===== src/Cleanup/Retention.antt =====
-- When postMigrationInProgress of pkg/databaseclaim/databaseclaim.go gives up the old database.
use db_controller.Prelude.{
  ℕ, ◌≤◌, ◌<◌, ◌-◌, ltb, Bool, true, false, ◌≡◌, ◌≢◌, ◌⊎◌, inl, inr, refl, Option, none, some,
  arith, Bool-cases,
}
use db_controller.Api.Error.{Result, ok, err, panic}
use db_controller.Api.Connection.{ConnectionInfo}
use db_controller.Api.Claim.{StatusForOldDb, no_old_db}
use db_controller.Cluster.{Cluster, Context}
use db_controller.Config.{Viper}
use db_controller.StatusManager.{Outcome, clear_error, update_status}
use db_controller.Tags.{Resources, manage_operational_tagging}
use db_controller.Cleanup.{
  instance_name, group_name, is_aurora, delete_old_db, should_delete, report_post_migration,
  finish_post_migration, post_migration_in_progress,
}

module _ {W : Type 0} (resources : Resources W) (cluster : Cluster W) (cfg : Viper) where
  open cluster use {now}

  report-old_db :
      (s : Context W)
      → (report_post_migration resources cluster cfg s).1.claim.status.old_db
        ≡ s.claim.status.old_db
  unfolding report_post_migration clear_error update_status
  report-old_db s = ground arith

  delete_old_db-forgets :
      (c : ConnectionInfo) (s : Context W)
      → (delete_old_db resources cluster cfg c s).0 ≡ ok tt
      → (delete_old_db resources cluster cfg c s).1.claim.status.old_db ≡ no_old_db
  unfolding delete_old_db
  delete_old_db-forgets c s h = ground arith

  -- Why the old database is kept or forgotten, after a tagging with this result in this state.
  abbrev pub Decided : Result Bool → Context W → StatusForOldDb → Type 0
  Decided tagged s old =
      ((tagged ≡ ok false)
        × ((started : ℕ) × (s.claim.status.old_db.post_migration_action_started_at ≡ some started)
            × (now s.world - started ≤ 600))
        × (old ≡ s.claim.status.old_db))
      ⊎ (((tagged ≢ ok false)
            ⊎ ((started : ℕ) × (s.claim.status.old_db.post_migration_action_started_at
                  ≡ some started)
                × (600 < now s.world - started)))
          × (old ≡ no_old_db))

  forgets :
      (c : ConnectionInfo) (tagged : Result Bool) (s : Context W) (o : Outcome)
      → should_delete resources cluster cfg tagged s ≡ (ok true, s)
      → (finish_post_migration resources cluster cfg c tagged s).0 ≡ ok o
      → (finish_post_migration resources cluster cfg c tagged s).1.claim.status.old_db ≡ no_old_db
  unfolding finish_post_migration
  forgets c tagged s o d h = grind (arith, report-old_db, delete_old_db-forgets)

  keeps :
      (c : ConnectionInfo) (tagged : Result Bool) (s : Context W) (o : Outcome)
      → should_delete resources cluster cfg tagged s ≡ (ok false, s)
      → (finish_post_migration resources cluster cfg c tagged s).0 ≡ ok o
      → (finish_post_migration resources cluster cfg c tagged s).1.claim.status.old_db
        ≡ s.claim.status.old_db
  unfolding finish_post_migration
  keeps c tagged s o d h = grind (arith, report-old_db)

  deletes_when :
      (s : Context W) (started : ℕ) (b : Bool)
      → s.claim.status.old_db.post_migration_action_started_at ≡ some started
      → ltb 600 (now s.world - started) ≡ b
      → should_delete resources cluster cfg (ok false) s ≡ (ok b, s)
  unfolding should_delete
  deletes_when s started b e p = rw e (rw p refl)

  unstarted :
      (c : ConnectionInfo) (s : Context W) (o : Outcome)
      → s.claim.status.old_db.post_migration_action_started_at ≡ none
      → (finish_post_migration resources cluster cfg c (ok false) s).0 ≢ ok o
  unfolding finish_post_migration should_delete
  unstarted c s o e h = ground (arith, e, h)

  unverified-Decided :
      (c : ConnectionInfo) (s : Context W) (o : Outcome) (started : Option ℕ)
      → s.claim.status.old_db.post_migration_action_started_at ≡ started
      → (finish_post_migration resources cluster cfg c (ok false) s).0 ≡ ok o
      → Decided
          (ok false)
          s
          (finish_post_migration resources cluster cfg c (ok false) s).1.claim.status.old_db
  unverified-Decided c s o none e h = absurd (unstarted c s o e h)
  unverified-Decided c s o (some t) e h = elim (Bool-cases (ltb 600 (now s.world - t))) [
    | inl p ↦
        inr (inr (t, e, ground (arith, p)), forgets c (ok false) s o (deletes_when s t true e p) h)
    | inr p ↦
        inl (refl, (t, e, ground (arith, p)), keeps c (ok false) s o (deletes_when s t false e p) h)
  ]

  panics :
      (c : ConnectionInfo) (s : Context W) (o : Outcome)
      → (finish_post_migration resources cluster cfg c panic s).0 ≢ ok o
  unfolding finish_post_migration should_delete
  panics c s o h = cc

  finish-Decided :
      (c : ConnectionInfo) (tagged : Result Bool) (s : Context W) (o : Outcome)
      → (finish_post_migration resources cluster cfg c tagged s).0 ≡ ok o
      → Decided tagged s
          (finish_post_migration resources cluster cfg c tagged s).1.claim.status.old_db
  unfolding should_delete
  finish-Decided c (err e) s o h = inr (inl (λ x. cc), forgets c (err e) s o refl h)
  finish-Decided c (ok true) s o h = inr (inl (λ x. cc), forgets c (ok true) s o refl h)
  finish-Decided c (ok false) s o h =
      unverified-Decided c s o s.claim.status.old_db.post_migration_action_started_at refl h
  finish-Decided c panic s o h = absurd (panics c s o h)

  -- When a call of the work behind a migration succeeds for a claim with an old connection, either
  -- the tagging has succeeded without being verified and the work began at most ten minutes ago,
  -- and the claim still has its old database; or the tagging is verified or has failed, or the time
  -- is over, and the claim has no old database.
  pub post_migration-Decided :
      (c : ConnectionInfo) (s : Context W) (o : Outcome)
      → s.claim.status.old_db.connection_info ≡ some c
      → (post_migration_in_progress resources cluster cfg s).0 ≡ ok o
      → let tagged =
          manage_operational_tagging resources cfg
            (instance_name c)
            (group_name s.claim c)
            (is_aurora s.claim)
            s.world in
        Decided tagged.0
          (record s { world = tagged.1 })
          (post_migration_in_progress resources cluster cfg s).1.claim.status.old_db
  unfolding post_migration_in_progress
  post_migration-Decided c s o e h = rw e (finish-Decided c _ _ o (rw e at h))
