-- ===== src/Config.antt =====
-- pkg/basefunctions/basefunctions.go: the settings. The keys are looked up by viper, and the title
-- case of a text is made by golang.org/x/text: `Viper` holds what the program takes from both.
use db_controller.Prelude.{ℤ, pos, ltz, times, String, Bool, Map, ◌==◌, ◌<>◌, if◌then◌else◌}

pub record Viper : Type 0 where
  pub get_string : String → String
  pub get_bool : String → Bool
  pub get_int : String → ℤ
  -- GetDuration, in seconds
  pub get_duration : String → ℤ
  pub get_string_map : String → Map String
  -- cases.Title(language.English, cases.Compact).String
  pub title : String → String

abbrev pub get_cloud : Viper → String
get_cloud v = v.get_string "cloud"

abbrev pub get_super_user_elevation : Viper → Bool
get_super_user_elevation v = v.get_bool "supportSuperUserElevation"

abbrev pub get_password_rotation_period : Viper → ℤ
get_password_rotation_period v = v.get_duration "passwordconfig::passwordRotationPeriod"

abbrev pub get_default_backup_policy : Viper → String
get_default_backup_policy v = v.get_string "defaultBackupPolicyValue"

abbrev pub get_multi_az_enabled : Viper → Bool
get_multi_az_enabled v = v.get_bool "dbMultiAZEnabled"

abbrev pub get_db_identifier_prefix : Viper → String
get_db_identifier_prefix v = v.get_string "env"

abbrev pub get_default_ssl_mode : Viper → String
get_default_ssl_mode v = v.get_string "defaultSslMode"

abbrev pub get_default_major_version : Viper → String
get_default_major_version v = v.get_string "defaultMajorVersion"

abbrev pub service_namespace : Viper → String
service_namespace v = v.get_string "SERVICE_NAMESPACE"

abbrev pub get_min_password_length : Viper → ℤ
get_min_password_length v = v.get_int "passwordconfig::minPasswordLength"

abbrev pub get_is_password_complexity : Viper → Bool
get_is_password_complexity v = v.get_string "passwordconfig::passwordComplexity" == "enabled"

abbrev pub get_system_functions : Viper → Map String
get_system_functions v = v.get_string_map "systemFunctions"

abbrev pub get_region : Viper → String
get_region v = v.get_string "region"

abbrev pub get_vpc_security_group_id_refs : Viper → String
get_vpc_security_group_id_refs v = v.get_string "vpcSecurityGroupIDRefs"

abbrev pub get_provider_config : Viper → String
get_provider_config v = v.get_string "providerConfig"

abbrev pub get_db_subnet_group_name_ref : Viper → String
get_db_subnet_group_name_ref v = v.get_string "dbSubnetGroupNameRef"

abbrev pub get_default_reclaim_policy : Viper → String
get_default_reclaim_policy v = v.get_string "defaultReclaimPolicy"

abbrev pub get_pg_temp_folder : Viper → String
get_pg_temp_folder v = v.get_string "pgTemp"

-- GetMaxWaitTime and GetDynamicHostWaitTime, in seconds
abbrev pub max_wait_time : ℤ
max_wait_time = pos 600

unfoldable pub get_dynamic_host_wait_time : Viper → ℤ
get_dynamic_host_wait_time v =
    let t = times (v.get_int "dynamicHostWaitTimeMin") 60 in
    if ltz max_wait_time t then pos 60 else t

-- The class of a role claim and of its controller.
unfoldable pub is_class_permitted : String → String → Bool
is_class_permitted claim_class controller_class =
    (if claim_class == "" then "default" else claim_class)
    == (if controller_class == "" then "default" else controller_class)

abbrev pub get_project : Viper → String
get_project v = v.get_string "project"

abbrev pub get_network : Viper → String
get_network v = "projects/" <> (get_project v <> ("/global/networks/" <> v.get_string "network"))

abbrev pub get_sub_network : Viper → String
get_sub_network v =
    "projects/"
    <> (get_project v
        <> ("/regions/" <> (get_region v <> ("/subnetworks/" <> v.get_string "subnetwork"))))
