-- ===== src/DbUser.antt =====
-- pkg/dbuser/dbuser.go: the two users of a role, between which its password is rotated.
pub mod Rotation
use db_controller.Prelude.{
  String, Bool, true, false, not, ◌==◌, ◌<>◌, has_suffix, trim_suffix, if◌then◌else◌,
}

abbrev pub suffix_a : String
suffix_a = "_a"

abbrev pub suffix_b : String
suffix_b = "_b"

pub record DbUser : Type 0 where
  pub rolename : String
  pub user_a : String
  pub user_b : String

unfoldable pub new_db_user : String → DbUser
new_db_user base_name = record {
  rolename = base_name;
  user_a = base_name <> suffix_a;
  user_b = base_name <> suffix_b;
}

unfoldable pub trim_user_suffix : String → String
trim_user_suffix name = trim_suffix (trim_suffix name suffix_a) suffix_b

unfoldable pub is_user_changed : DbUser → String → Bool
unfolding trim_user_suffix
is_user_changed dbu current_user_name =
    if current_user_name == ""
    then false
    else not (trim_user_suffix current_user_name == dbu.rolename)

unfoldable pub next_user : DbUser → String → String
next_user dbu cur_user = if has_suffix cur_user suffix_a then dbu.user_b else dbu.user_a
