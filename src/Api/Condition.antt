-- ===== src/Api/Condition.antt =====
-- api/v1/condition.go. `CreateCondition` leaves the time and the generation at zero.
use db_controller.Prelude.{String, ◌<>◌}
use db_controller.Api.Error.{
  Err, not_found, conflict, failed, do_not_update_status, message, wrapped, followed, managed,
}
use db_controller.Api.Claim.{Condition}

abbrev pub create_condition : String → String → String → String → Condition
create_condition type status reason text = record {
  type = type;
  status = status;
  reason = reason;
  message = text;
  last_transition_time = 0;
  observed_generation = 0;
}

abbrev pub condition_ready : String
condition_ready = "Ready"

abbrev pub condition_sync : String
condition_sync = "Synced"

abbrev pub reason_needs_migrate : String
reason_needs_migrate = "NeedsMigrate"

-- Err.Error()
unfoldable pub error_text : Err → String
error_text not_found = "not found"
error_text conflict = "conflict"
error_text (failed s) = s
error_text do_not_update_status = "do not update status for this error"
error_text (message s) = s
error_text (wrapped s e) = s <> error_text e
error_text (followed e s) = error_text e <> s
error_text (managed e) = error_text e

abbrev pub provisioning_condition : Condition
provisioning_condition =
    create_condition condition_sync "False" "Provisioning" "Database provisioning is in progress"

abbrev pub deleting_condition : Condition
deleting_condition =
    create_condition condition_sync "False" "Deleting" "Database deletion is in progress"

abbrev pub migrating_condition : Condition
migrating_condition =
    create_condition condition_sync "False" "Migrating" "Database migration is underway"

abbrev pub database_ready_condition : Condition
database_ready_condition =
    create_condition condition_sync "True" "Available" "Database is provisioned"

abbrev pub reconcile_error_condition : Err → Condition
reconcile_error_condition e =
    create_condition condition_ready "False" "Unavailable"
      ("Reconciliation encountered an issue: " <> error_text e)

abbrev pub reconcile_success_condition : Condition
reconcile_success_condition =
    create_condition condition_ready "True" "Available"
      "Database successfully synchronized and ready for use"

abbrev pub no_db_version_status : Condition
no_db_version_status =
    create_condition reason_needs_migrate "True" "Available" "No database version specified"
