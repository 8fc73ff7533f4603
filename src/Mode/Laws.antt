-- ===== src/Mode/Laws.antt =====
-- What the modes of pkg/databaseclaim/modeenum.go mean for the claim that they are chosen for.
use db_controller.Prelude.{
  String, true, false, ◌≡◌, refl, sym, subst, ◌≢◌, ◌⊎◌, inl, inr, Option, none, some, arith, ◌==◌,
  eq_iff, is_some,
}
use db_controller.Api.Connection.{SourceDataFrom}
use db_controller.Api.Claim.{DatabaseClaim, ready, using_existing_db, post_migration_in_progress}
use db_controller.HostParams.{is_upgrade_requested, get_active_host_params}
use db_controller.RequestInfo.{RequestInfo}
use db_controller.Mode.{
  ModeEnum, not_supported, use_existing_db, migrate_existing_to_new_db, migration_in_progress,
  use_new_db, initiate_db_upgrade, upgrade_db_in_progress, post_migration, upgrade_mode,
  migrate_mode, source_mode, status_source_mode, existing_mode, get_mode, not_begun, is_completed,
  use_existing,
}

-- A migration that has begun and is not over.
abbrev pub IsUnderWay : String → Type 0
IsUnderWay state = (not_begun state ≡ false) × (is_completed state ≡ false)

-- What holds of the claim and of its updated form when a mode is chosen.
abbrev pub Justified : ModeEnum → RequestInfo → DatabaseClaim → DatabaseClaim → Type 0
Justified not_supported info claim after = Unit
Justified use_existing_db info claim after =
    (use_existing claim.spec.use_existing_source ≡ true)
    × (is_some claim.spec.source_data_from ≡ true)
Justified migrate_existing_to_new_db info claim after =
    (claim.status.active_db.db_state ≡ using_existing_db)
    × (is_some after.spec.source_data_from ≡ true)
    × (not_begun after.status.migration_state ≡ true)
Justified migration_in_progress info claim after =
    (claim.status.active_db.db_state ≡ using_existing_db)
    × (is_some after.spec.source_data_from ≡ true)
    × IsUnderWay after.status.migration_state
Justified use_new_db info claim after = Unit
Justified initiate_db_upgrade info claim after =
    (claim.status.active_db.db_state ≡ ready)
    × (is_upgrade_requested info.host_params (get_active_host_params claim) ≡ true)
    × (not_begun after.status.migration_state ≡ true)
Justified upgrade_db_in_progress info claim after =
    (claim.status.active_db.db_state ≡ ready)
    × (is_upgrade_requested info.host_params (get_active_host_params claim) ≡ true)
    × IsUnderWay after.status.migration_state
Justified post_migration info claim after =
    (claim.status.old_db.db_state ≡ post_migration_in_progress)
    × (claim.status.active_db.db_state ≡ ready)
    × (is_some claim.status.old_db.connection_info ≡ true)

upgrade_mode-Justified :
    (m : ModeEnum) (info : RequestInfo) (claim : DatabaseClaim)
    → (upgrade_mode info claim).0 ≡ m
    → Justified m info claim (upgrade_mode info claim).1
unfolding upgrade_mode
upgrade_mode-Justified not_supported info claim h = tt
upgrade_mode-Justified use_new_db info claim h = tt
upgrade_mode-Justified _ info claim h = ground (arith, eq_iff claim.status.active_db.db_state ready)

migrate_mode-Justified :
    (m : ModeEnum) (info : RequestInfo) (claim : DatabaseClaim)
    → (claim.status.active_db.db_state == using_existing_db) ≡ true
    → is_some claim.spec.source_data_from ≡ true
    → (migrate_mode info claim).0 ≡ m
    → Justified m info claim (migrate_mode info claim).1
unfolding migrate_mode
migrate_mode-Justified not_supported info claim e s h = tt
migrate_mode-Justified use_new_db info claim e s h = tt
migrate_mode-Justified m info claim e s h = ground (
  arith,
  eq_iff claim.status.active_db.db_state using_existing_db,
  upgrade_mode-Justified m info claim,
)

migrate_mode-later :
    (info : RequestInfo) (claim : DatabaseClaim) → (migrate_mode info claim).0 ≢ use_existing_db
unfolding migrate_mode upgrade_mode
migrate_mode-later info claim h = ground arith

status_source_mode-Justified :
    (m : ModeEnum) (info : RequestInfo) (claim : DatabaseClaim) (source : Option SourceDataFrom)
    → (claim.status.active_db.db_state == using_existing_db) ≡ true
    → (status_source_mode info claim source).0 ≡ m
    → Justified m info claim (status_source_mode info claim source).1
unfolding status_source_mode get_active_host_params
status_source_mode-Justified not_supported info claim source e h = tt
status_source_mode-Justified use_new_db info claim source e h = tt
status_source_mode-Justified m info claim none e h = cc
status_source_mode-Justified use_existing_db info claim (some source) e h =
    absurd (migrate_mode-later info _ h)
status_source_mode-Justified m info claim (some source) e h =
    migrate_mode-Justified m info
      (record claim { spec = record (claim.spec) { source_data_from = some source } }) e refl h

source_mode-Justified :
    (m : ModeEnum) (info : RequestInfo) (claim : DatabaseClaim) (source : Option SourceDataFrom)
    → claim.spec.source_data_from ≡ source
    → (source_mode info claim source).0 ≡ m
    → Justified m info claim (source_mode info claim source).1
unfolding source_mode
source_mode-Justified not_supported info claim source e h = tt
source_mode-Justified use_new_db info claim source e h = tt
source_mode-Justified m info claim none e h = ground (
  arith,
  upgrade_mode-Justified m info claim,
  status_source_mode-Justified m info claim claim.status.active_db.source_data_from,
)
source_mode-Justified m info claim (some source) e h =
    ground (arith, upgrade_mode-Justified m info claim, migrate_mode-Justified m info claim)

existing_mode-Justified :
    (m : ModeEnum) (info : RequestInfo) (claim : DatabaseClaim) (source : Option SourceDataFrom)
    → claim.spec.source_data_from ≡ source
    → use_existing claim.spec.use_existing_source ≡ true
    → (existing_mode claim source).0 ≡ m
    → Justified m info claim (existing_mode claim source).1
unfolding existing_mode
existing_mode-Justified not_supported info claim source e u h = tt
existing_mode-Justified use_new_db info claim source e u h = tt
existing_mode-Justified m info claim none e u h = cc
existing_mode-Justified m info claim (some source) e u h = ground arith

-- The five ways that `get_mode` takes.
abbrev Ways : RequestInfo → DatabaseClaim → Type 0
Ways info claim =
    (get_mode info claim ≡ (not_supported, claim))
    ⊎ (get_mode info claim ≡ (use_new_db, claim))
    ⊎ ((get_mode info claim ≡ (post_migration, claim))
        × ((claim.status.old_db.db_state ≡ post_migration_in_progress)
            × (claim.status.active_db.db_state ≡ ready)
            × (is_some claim.status.old_db.connection_info ≡ true)))
    ⊎ ((get_mode info claim ≡ existing_mode claim claim.spec.source_data_from)
        × (use_existing claim.spec.use_existing_source ≡ true))
    ⊎ (get_mode info claim ≡ source_mode info claim claim.spec.source_data_from)

get_mode-Ways : (info : RequestInfo) (claim : DatabaseClaim) → Ways info claim
unfolding get_mode
get_mode-Ways info claim = ground (
  arith,
  eq_iff claim.status.active_db.db_state ready,
  eq_iff claim.status.old_db.db_state post_migration_in_progress,
)

abbrev JustifiedAs : ModeEnum → RequestInfo → DatabaseClaim → ModeEnum × DatabaseClaim → Type 0
JustifiedAs m info claim r = r.0 ≡ m → Justified m info claim r.1

not_supported-Justified :
    (m : ModeEnum) (info : RequestInfo) (claim : DatabaseClaim)
    → JustifiedAs m info claim (not_supported, claim)
not_supported-Justified not_supported info claim h = tt
not_supported-Justified use_new_db info claim h = tt
not_supported-Justified _ info claim h = cc

use_new_db-Justified :
    (m : ModeEnum) (info : RequestInfo) (claim : DatabaseClaim)
    → JustifiedAs m info claim (use_new_db, claim)
use_new_db-Justified not_supported info claim h = tt
use_new_db-Justified use_new_db info claim h = tt
use_new_db-Justified _ info claim h = cc

post_migration-Justified :
    (m : ModeEnum) (info : RequestInfo) (claim : DatabaseClaim)
    → Justified post_migration info claim claim
    → JustifiedAs m info claim (post_migration, claim)
post_migration-Justified not_supported info claim f h = tt
post_migration-Justified use_new_db info claim f h = tt
post_migration-Justified post_migration info claim f h = f
post_migration-Justified _ info claim f h = cc

-- What a chosen mode says of the claim: an existing database is used only where the claim asks for
-- it and names a source; a migration runs only from an existing database in use and with a source
-- to read; an upgrade only from a database that is ready, when the parameters ask for one; and the
-- work after a migration only with the old database's connection and the new one ready. A mode
-- that begins goes with a stored state not yet begun, and one that goes on with a state that has
-- begun and is not completed.
pub get_mode-Justified :
    (m : ModeEnum) (info : RequestInfo) (claim : DatabaseClaim)
    → (get_mode info claim).0 ≡ m
    → Justified m info claim (get_mode info claim).1
get_mode-Justified m info claim = elim (get_mode-Ways info claim) [
  | inl e ↦ subst (JustifiedAs m info claim) (sym e) (not_supported-Justified m info claim)
  | inr (inl e) ↦ subst (JustifiedAs m info claim) (sym e) (use_new_db-Justified m info claim)
  | inr (inr (inl (e, f))) ↦
      subst (JustifiedAs m info claim) (sym e) (post_migration-Justified m info claim f)
  | inr (inr (inr (inl (e, u)))) ↦
      subst (JustifiedAs m info claim) (sym e) (existing_mode-Justified m info claim _ refl u)
  | inr (inr (inr (inr e))) ↦
      subst (JustifiedAs m info claim) (sym e) (source_mode-Justified m info claim _ refl)
]
