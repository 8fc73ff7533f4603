-- ===== src/Reconcile/Entry.antt =====
-- Reconcile of pkg/databaseclaim/databaseclaim.go, from the name of a claim.
use db_controller.Prelude.{pos, String, false, [], if◌then◌else◌}
use db_controller.Api.Claim.{DatabaseClaim}
use db_controller.Api.Connection.{no_connection}
use db_controller.Api.Error.{Result, ok, err, panic, is_not_found}
use db_controller.Cluster.{Handler}
use db_controller.Exec.{Exec, pure, fail, crash, rescue}
use db_controller.Reconcile.{is_claim_class_permitted, with_defaults, reconcile_claim}
use db_controller.Reconciler.{Reconciler}
use db_controller.RequestInfo.{RequestInfo, new_request_info}
use db_controller.StatusManager.{Outcome, no_requeue, set_error}

-- `requestInfo{}`, which NewRequestInfo returns beside an error
abbrev pub no_request_info : RequestInfo
no_request_info = record {
  db_type = "";
  shared_db_host = false;
  master_conn_info = no_connection;
  temp_secret = "";
  host_params = record {
    engine = "";
    shape = "";
    min_storage_gb = pos 0;
    max_storage_gb = pos 0;
    db_version = "";
    master_username = "";
    instance_class = "";
    storage_type = "";
    skip_final_snapshot_before_deletion = false;
    publicly_accessible = false;
    enable_iam_database_authentication = false;
    deletion_policy = "";
    port = pos 0;
    is_default_engine = false;
    is_default_shape = false;
    is_default_instance_class = false;
    is_default_storage = false;
    is_default_version = false;
  };
  enable_replication_role = false;
  enable_super_user = false;
  enable_perf_insight = false;
  enable_cloudwatch_logs_export = [];
  backup_retention_days = pos 0;
  ca_certificate_identifier = "";
}

-- a handler of a claim and a request, as a call of the world
abbrev pub handle : {W A : Type 0} → DatabaseClaim → RequestInfo → Handler W A → Exec W A
handle claim info m w =
    let done = m (record { claim = claim; info = info; world = w }) in (done.0, done.1.world)

module _ {W : Type 0} (r : Reconciler W) where
  open r use {cluster, config}

  -- behind the class and the defaults
  abbrev with_request : DatabaseClaim → Result RequestInfo → Exec W Outcome
  with_request claim (ok info) = handle claim info (reconcile_claim r)
  with_request claim (err e) = handle claim no_request_info (set_error cluster e)
  with_request claim panic = crash

  -- Reconcile
  unfoldable pub reconcile : String → String → Exec W Outcome
  unfolding is_claim_class_permitted with_defaults new_request_info reconcile_claim set_error
  reconcile namespace name w =
      rescue (cluster.get_claim namespace name w) w
        (λ e. if is_not_found e then pure no_requeue else fail e)
        (λ found.
          if is_claim_class_permitted r.class found.spec.class
          then with_request (with_defaults found) (new_request_info config (with_defaults found))
          else pure no_requeue)
