-- ===== src/HostParams/Laws.antt =====
-- What the host parameters of pkg/hostparams/hostparams.go promise: the rules on storage, and when
-- a claim asks for an upgrade of its host.
use db_controller.Prelude.{
  ℤ, pos, ◌≤ℤ◌, ◌<ℤ◌, ltz-false→le, lez-false→lt, eqz→eq, String, not, ◌&&◌, ◌||◌, ◌≡◌, sym, subst,
  ◌⊎◌, arith, ◌==◌, eq_iff, eq_refl,
}
use db_controller.Api.Error.{ok, bind-ok}
use db_controller.Api.Claim.{postgres, DatabaseClaim}
use db_controller.Config.{Viper}
use db_controller.HostParams.{
  HostParams, major, get_instance_class, is_upgrade_requested, check_storage, fill, or_invalid_port,
  new, get_storage_type, get_active_host_params, atoi,
}

-- The storage of an accepted postgres host never shrinks below what the active database may use,
-- and a limit that is set lies above the storage asked for.
pub record StorageFits (claim : DatabaseClaim) (p : HostParams) : Type 0 where
  pub grows : claim.status.active_db.max_storage_gb ≤ℤ p.max_storage_gb
  pub above : (p.max_storage_gb ≡ pos 0) ⊎ (p.min_storage_gb <ℤ p.max_storage_gb)

check_storage-fits :
    (claim : DatabaseClaim) (p q : HostParams)
    → p.engine ≡ postgres
    → check_storage claim p ≡ ok q
    → (q ≡ p) × StorageFits claim p
unfolding check_storage
check_storage-fits claim p q e h = ground (
  arith,
  eq_iff p.engine postgres,
  eqz→eq p.max_storage_gb (pos 0),
  eqz→eq claim.status.active_db.max_storage_gb (pos 0),
  ltz-false→le p.max_storage_gb claim.status.active_db.max_storage_gb,
  lez-false→lt p.max_storage_gb p.min_storage_gb,
)

check_storage-same :
    (claim : DatabaseClaim) (p q : HostParams) → check_storage claim p ≡ ok q → q ≡ p
unfolding check_storage
check_storage-same claim p q h = ground arith

-- What `new` accepts: the claim's fields with their defaults, a storage type, and storage that
-- passes the check.
record IsFilled (config : Viper) (claim : DatabaseClaim) (p : HostParams) : Type 0 where
  port : ℤ
  storage : String
  filled : p ≡ record (fill config claim port) { storage_type = storage }
  checked : check_storage claim p ≡ ok p

new-IsFilled :
    (config : Viper) (claim : DatabaseClaim) (p : HostParams)
    → new config claim ≡ ok p
    → IsFilled config claim p
unfolding new
new-IsFilled config claim p h =
    let (port, hp, h1) =
      bind-ok (or_invalid_port (atoi (config.get_string "defaultMasterPort"))) _ h in
    let given = fill config claim port in
    let (storage, hs, h2) = bind-ok (get_storage_type config given.engine given.shape) _ h1 in
    let same = check_storage-same claim (record given { storage_type = storage }) p h2 in
    record {
      port = port;
      storage = storage;
      filled = same;
      checked = subst (λ q. check_storage claim q ≡ ok p) (sym same) h2;
    }

-- A host that a claim gets, whatever the database was: with the type postgres its storage fits.
new-storage :
    (config : Viper) (claim : DatabaseClaim) (p : HostParams)
    → new config claim ≡ ok p
    → p.engine ≡ postgres
    → StorageFits claim p
new-storage config claim p h e =
    (check_storage-fits claim p p e (new-IsFilled config claim p h).checked).1

-- An accepted claim asks for an upgrade exactly when its own engine, shape or version is given and
-- differs from what the active database has: of a shape only the instance class counts, and of a
-- version only the part before the first dot.
pub upgrade_requested_iff :
    (config : Viper) (claim : DatabaseClaim) (p : HostParams)
    → new config claim ≡ ok p
    → is_upgrade_requested p (get_active_host_params claim) ≡ (
        not (claim.spec.db_type == "") && not (claim.status.active_db.db_type == claim.spec.db_type)
        || not (claim.spec.shape == "")
          && not (
              get_instance_class claim.status.active_db.shape
              == get_instance_class claim.spec.shape)
        || not (claim.spec.db_version == "")
          && not (major claim.status.active_db.db_version == major claim.spec.db_version))
unfolding is_upgrade_requested get_active_host_params fill
upgrade_requested_iff config claim p h =
    let f = new-IsFilled config claim p h in
    rw f.filled (ground (arith, eq_refl (major claim.status.active_db.db_version)))
