-- ===== src/Examples/Pure.antt =====
-- The theorems on pure functions, at concrete inputs.
use db_controller.Prelude.{
  pos, Bool, false, ◌≡◌, refl, List, [], ◌∷◌, All, ◌==◌, before, not, ◌&&◌, ◌||◌,
}
use db_controller.Api.Error.{ok}
use db_controller.Api.Claim.{Tag}
use db_controller.Api.Connection.{ConnectionInfo}
use db_controller.ConnectionString.Unambiguous.{connection_string-Unambiguous}
use db_controller.HostParams.{
  HostParams, new, fill, get_active_host_params, is_upgrade_requested, get_instance_class, major,
}
use db_controller.HostParams.Laws.{upgrade_requested_iff}
use db_controller.Migration.{switch_to_new_db}
use db_controller.Migration.Switch.{switch-get_mode}
use db_controller.Mode as Mode
use db_controller.Mode.{get_mode, source_mode, upgrade_mode}
use db_controller.Mode.Laws.{Justified, get_mode-Justified}
use db_controller.RequestInfo.{RequestInfo}
use db_controller.Tags.{is_marked_inactive, has_operational_tag}
use db_controller.Tags.Laws.{IsFilled, is_marked_inactive-has_operational_tag}
use db_controller.Examples.Fixtures.{settings, claim, connection, filled_tag}

-- The parameters that the settings and the claim give.
unfoldable pub params : HostParams
unfolding fill
params = record (fill settings claim (pos 5432)) { storage_type = "gp3" }

params-new : new settings claim ≡ ok params
unfolding params new
params-new = refl

abbrev pub info : RequestInfo
info = record {
  db_type = "postgres";
  shared_db_host = false;
  master_conn_info = connection;
  temp_secret = "";
  host_params = params;
  enable_replication_role = false;
  enable_super_user = false;
  enable_perf_insight = false;
  enable_cloudwatch_logs_export = [];
  backup_retention_days = pos 7;
  ca_certificate_identifier = "";
}

-- a connection whose password has the text of another parameter in it
abbrev odd : ConnectionInfo
odd = record {
  host = "db";
  port = "5432";
  username = "app_a";
  password = "p dbname=x";
  database_name = "app";
  ssl_mode = "require";
}

connection_string-Unambiguous_example :
    (odd.username ≡ odd.username)
    × (odd.password ≡ odd.password)
    × (odd.database_name ≡ odd.database_name)
    × (odd.ssl_mode ≡ odd.ssl_mode)
connection_string-Unambiguous_example = connection_string-Unambiguous odd odd refl refl refl

tags-IsFilled : All IsFilled (filled_tag ∷ [])
tags-IsFilled = (("team", "core", refl, refl), tt)

is_marked_inactive-has_operational_tag_example :
    (b : Bool) × (is_marked_inactive (filled_tag ∷ []) ≡ ok b)
    × (has_operational_tag (filled_tag ∷ []) ≡ ok b)
is_marked_inactive-has_operational_tag_example =
    is_marked_inactive-has_operational_tag (filled_tag ∷ []) tags-IsFilled

abbrev silver : List Tag
silver = record { key = "Backup"; value = "Silver" } ∷ []

upgrade_requested_iff_example : is_upgrade_requested params (get_active_host_params claim) ≡ (
    not (claim.spec.db_type == "") && not (claim.status.active_db.db_type == claim.spec.db_type)
    || not (claim.spec.shape == "")
      && not
          (get_instance_class claim.status.active_db.shape == get_instance_class claim.spec.shape)
    || not (claim.spec.db_version == "")
      && not (major claim.status.active_db.db_version == major claim.spec.db_version))
upgrade_requested_iff_example = upgrade_requested_iff settings claim params params-new

is_upgrading : (get_mode info claim).0 ≡ Mode.upgrade_db_in_progress
unfolding get_mode params source_mode upgrade_mode is_upgrade_requested get_active_host_params
    before
is_upgrading = refl

get_mode-Justified_example :
    Justified Mode.upgrade_db_in_progress info claim (get_mode info claim).1
get_mode-Justified_example = get_mode-Justified Mode.upgrade_db_in_progress info claim is_upgrading

switch-get_mode_example :
    let after = switch_to_new_db 100 claim in
    (get_mode info after ≡ (Mode.post_migration, after))
    × (after.status.old_db.connection_info ≡ claim.status.active_db.connection_info)
switch-get_mode_example = switch-get_mode 100 info claim refl refl refl
