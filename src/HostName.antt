-- ===== src/HostName.antt =====
-- The names of cloud resources: String and Hash of pkg/hostparams/hostparams.go, and
-- getDynamicHostName and getParameterGroupName of pkg/databaseclaim/databaseclaim.go. `checksum`
-- is crc32.Checksum with the table of the polynomial 0xD5828281.
pub mod Length
use Prim.Native.Char.{Char}
use Prim.Native.String.{◌∷◌, []}
use db_controller.Prelude.{
  ℕ, zero, suc, ◌-◌, ◌+◌, ◌%◌, ◌/◌, eqb, String, ◌<>◌, ◌==◌, before, if◌then◌else◌,
}
use db_controller.Api.Claim.{DatabaseClaim, aurora_postgres}
use db_controller.Config.{Viper, get_db_identifier_prefix}
use db_controller.HostParams.{HostParams}

-- HostParams.String
unfoldable pub params_string : HostParams → String
params_string p = p.engine <> ("-" <> (p.instance_class <> ("-" <> p.db_version)))

-- the hexadecimal digit of a number below 16
unfoldable pub hex_digit : ℕ → String → Char
hex_digit n [] = "0"
hex_digit n (c ∷ s) = if eqb n 0 then c else hex_digit (n - 1) s

-- the last digits of a number, as many as are asked for: "%08x" of a 32-bit number has eight
unfoldable pub hex : ℕ → ℕ → String → String
unfolding hex_digit
hex zero n rest = rest
hex (suc k) n rest = hex k (n / 16) (hex_digit (n % 16) "0123456789abcdef" ∷ rest)

module _ (checksum : String → ℕ) where
  -- Hash
  unfoldable pub hash : HostParams → String
  unfolding hex params_string
  hash p = hex 8 (checksum (params_string p)) ""

  module _ (config : Viper) where
    abbrev pub name_prefix : String
    name_prefix =
        if get_db_identifier_prefix config == "" then "" else get_db_identifier_prefix config <> "-"

    -- getDynamicHostName, of the hash of the parameters
    unfoldable pub get_dynamic_host_name : HostParams → DatabaseClaim → String
    unfolding hash
    get_dynamic_host_name p claim = name_prefix <> (claim.name <> ("-" <> hash p))

    -- getParameterGroupName
    unfoldable pub get_parameter_group_name : HostParams → DatabaseClaim → String → String
    unfolding get_dynamic_host_name before
    get_parameter_group_name p claim db_type =
        get_dynamic_host_name p claim
        <> ((if db_type == aurora_postgres then "-a-" else "-") <> before b'.' p.db_version)
