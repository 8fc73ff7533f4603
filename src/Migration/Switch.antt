-- ===== src/Migration/Switch.antt =====
-- The claim behind a migration of pkg/databaseclaim/databaseclaim.go, and the mode that comes next.
use db_controller.Prelude.{ℕ, true, false, ◌≡◌, ◌≢◌, refl, ◌==◌, is_some}
use db_controller.Api.Claim.{DatabaseClaim, ready, using_existing_db}
use db_controller.Mode as Mode
use db_controller.Mode.{get_mode, migration_in_progress, migrate_existing_to_new_db}
use db_controller.Mode.Laws.{get_mode-Justified}
use db_controller.RequestInfo.{RequestInfo}
use db_controller.Migration.{switch_to_new_db, make_deep_copy_to_old_db}

ready-ne : ready ≢ using_existing_db
ready-ne e = cc

-- A claim that has switched to its new database never starts or continues a migration from an
-- existing one.
switch-no_migration :
    (time : ℕ) (info : RequestInfo) (claim : DatabaseClaim)
    → let mode = (get_mode info (switch_to_new_db time claim)).0 in
      (mode ≢ migration_in_progress) × (mode ≢ migrate_existing_to_new_db)
unfolding switch_to_new_db
switch-no_migration time info claim =
    let after = switch_to_new_db time claim in
    (
      λ h. ready-ne (get_mode-Justified migration_in_progress info after h).0,
      λ h. ready-ne (get_mode-Justified migrate_existing_to_new_db info after h).0,
    )

-- Where the former database was the controller's own, had a connection and is not on a shared host,
-- the mode that follows the switch to the new one is the work after a migration: it sees the former
-- connection as the old one, and leaves the claim as it is.
pub switch-get_mode :
    (time : ℕ) (info : RequestInfo) (claim : DatabaseClaim)
    → info.shared_db_host ≡ false
    → (claim.status.active_db.db_state == using_existing_db) ≡ false
    → is_some claim.status.active_db.connection_info ≡ true
    → let after = switch_to_new_db time claim in
      (get_mode info after ≡ (Mode.post_migration, after))
      × (after.status.old_db.connection_info ≡ claim.status.active_db.connection_info)
unfolding switch_to_new_db get_mode make_deep_copy_to_old_db
switch-get_mode time info claim s a c = (rw a (rw c (rw s refl)), rw a refl)
