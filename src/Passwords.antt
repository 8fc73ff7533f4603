-- ===== src/Passwords.antt =====
-- generatePassword and generateMasterPassword of pkg/databaseclaim/databaseclaim.go, and
-- GeneratePassword of pkg/basefunctions/basefunctions.go, which is the first again. `Passwords` is
-- github.com/sethvargo/go-password.
use db_controller.Prelude.{ℤ, pos, quotient, String, Bool, true, false, if◌then◌else◌}
use db_controller.Config.{Viper, get_min_password_length, get_is_password_complexity}
use db_controller.Exec.{Exec}

pub record Passwords (W : Type 0) : Type 0 where
  -- Generate, by the length and the counts of digits and symbols
  pub generate : ℤ → ℤ → ℤ → Exec W String
  -- the same of the package's own generator, without upper-case letters or with repetitions
  pub generate_with : ℤ → ℤ → ℤ → Bool → Bool → Exec W String

-- generateMasterPassword
unfoldable pub generate_master_password : {W : Type 0} → Passwords W → Exec W String
generate_master_password passwords = passwords.generate_with (pos 30) (pos 3) (pos 0) false true

unfoldable pub generate_password : {W : Type 0} → Passwords W → Viper → Exec W String
generate_password passwords config =
    let n = get_min_password_length config in
    if get_is_password_complexity config
    then passwords.generate n (quotient n 4) (quotient n 4)
    else passwords.generate (pos 32) (pos 10) (pos 10)
