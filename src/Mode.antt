-- ===== src/Mode.antt =====
-- pkg/databaseclaim/modeenum.go: which operation the state of a claim calls for.
pub mod Laws
use db_controller.Prelude.{
  String, Bool, true, false, not, ◌&&◌, ◌||◌, Option, none, some, ◌==◌, is_some, if◌then◌else◌,
}
use db_controller.Api.Connection.{SourceDataFrom}
use db_controller.Api.Claim.{
  DatabaseClaim, ready, in_progress, using_existing_db, post_migration_in_progress,
}
use db_controller.HostParams.{is_upgrade_requested, get_active_host_params}
use db_controller.Pgctl.State.{initial, completed, enum_string}
use db_controller.RequestInfo.{RequestInfo}

pub data ModeEnum : Type 0 where
  not_supported use_existing_db migrate_existing_to_new_db migration_in_progress : ModeEnum
  use_new_db initiate_db_upgrade upgrade_db_in_progress post_migration : ModeEnum

abbrev pub is_database : SourceDataFrom → Bool
is_database source = source.source_type == "database"

-- MigrationState is empty or that of a migration not yet begun
abbrev pub not_begun : String → Bool
not_begun state = state == "" || state == enum_string initial

abbrev pub is_completed : String → Bool
is_completed state = state == enum_string completed

abbrev pub use_existing : Option Bool → Bool
use_existing none = false
use_existing (some b) = b

-- the last tests: an upgrade of a database that is ready, or its plain use
unfoldable pub upgrade_mode : RequestInfo → DatabaseClaim → ModeEnum × DatabaseClaim
unfolding enum_string
upgrade_mode info claim =
    let begun =
      if claim.status.new_db.db_state == ""
      then record claim {
        status = record (claim.status) {
          new_db = record (claim.status.new_db) { db_state = in_progress };
          migration_state = "";
        };
      }
      else claim in
    if claim.status.active_db.db_state == ready
      && is_upgrade_requested info.host_params (get_active_host_params claim)
    then (if not_begun begun.status.migration_state
        then (initiate_db_upgrade, begun)
        else if not (is_completed begun.status.migration_state)
        then (upgrade_db_in_progress, begun)
        else (use_new_db, begun))
    else (use_new_db, claim)

-- the mode of a claim whose source is the database in use
unfoldable pub migrate_mode : RequestInfo → DatabaseClaim → ModeEnum × DatabaseClaim
unfolding enum_string
migrate_mode info claim =
    if not_begun claim.status.migration_state
    then (migrate_existing_to_new_db, claim)
    else if not (is_completed claim.status.migration_state)
    then (migration_in_progress, claim)
    else upgrade_mode info claim

-- the existing database is in use, and the claim names no source: it is taken from the status
unfoldable pub status_source_mode :
    RequestInfo → DatabaseClaim → Option SourceDataFrom → ModeEnum × DatabaseClaim
status_source_mode info claim none = (not_supported, claim)
status_source_mode info claim (some source) =
    migrate_mode info
      (record claim { spec = record (claim.spec) { source_data_from = some source } })

-- "use existing is false": with a source in the claim, or in the status only
unfoldable pub source_mode :
    RequestInfo → DatabaseClaim → Option SourceDataFrom → ModeEnum × DatabaseClaim
source_mode info claim (some source) =
    if not (is_database source)
    then (not_supported, claim)
    else if claim.status.active_db.db_state == using_existing_db
    then migrate_mode info claim
    else upgrade_mode info claim
source_mode info claim none =
    if claim.status.active_db.db_state == using_existing_db
    then status_source_mode info claim claim.status.active_db.source_data_from
    else upgrade_mode info claim

unfoldable pub existing_mode : DatabaseClaim → Option SourceDataFrom → ModeEnum × DatabaseClaim
existing_mode claim none = (not_supported, claim)
existing_mode claim (some source) =
    if not (is_database source) then (not_supported, claim) else (use_existing_db, claim)

-- getMode: the mode, and the claim with the changes that it makes on the way.
unfoldable pub get_mode : RequestInfo → DatabaseClaim → ModeEnum × DatabaseClaim
get_mode info claim =
    let post = claim.status.old_db.db_state == post_migration_in_progress in
    let is_ready = claim.status.active_db.db_state == ready in
    if post
      && (not (is_some claim.status.old_db.connection_info) || not is_ready || info.shared_db_host)
    then (not_supported, claim)
    else if post && is_ready
    then (post_migration, claim)
    else if info.shared_db_host
    then (use_new_db, claim)
    else if use_existing claim.spec.use_existing_source
    then existing_mode claim claim.spec.source_data_from
    else source_mode info claim claim.spec.source_data_from
