-- ===== src/HostName/Length.antt =====
-- How long the names of cloud resources are, in bytes.
use Prim.Native.Char.{Char, len_utf8}
use Prim.Native.String.{len, count, [], ◌∷◌}
use Prim.Native.String.len
use Prim.Native.String.count
use text.Mathlib.TextLemmas.{length-cons}
use text.Mathlib.TextPositions.{len-append, len_utf8-pos}
use db_controller.Prelude.{
  ℕ, zero, suc, ◌+◌, ◌-◌, ◌%◌, ◌/◌, ◌≤◌, eqb, String, ◌<>◌, ◌≡◌, refl, arith, inl, inr, Bool-cases,
  ◌==◌,
}
use db_controller.Api.Claim.{DatabaseClaim}
use db_controller.Api.Error.{ok, bind-ok}
use db_controller.Config.{Viper, get_db_identifier_prefix}
use db_controller.HostName.{hex, hex_digit, hash, name_prefix, get_dynamic_host_name, params_string}
use db_controller.HostParams as HostParams
use db_controller.HostParams.{HostParams}
use db_controller.RequestInfo.{RequestInfo, new_request_info, or_wrapped, check_name}

count-le-len : (s : String) → count s ≤ len s
count-le-len [] = omega (arith, count.nil)
count-le-len (c ∷ s) =
    let (k, e) = len_utf8-pos c in omega (arith, e, count-le-len s, len.cons c s, length-cons c s)

one_byte :
    (c : Char) (s : String) → len (c ∷ s) ≡ count (c ∷ s) → (len_utf8 c ≡ 1) × (len s ≡ count s)
one_byte c s h =
    let (k, e) = len_utf8-pos c in
    (
      omega (arith, e, count-le-len s, len.cons c s, length-cons c s, h),
      omega (arith, e, count-le-len s, len.cons c s, length-cons c s, h),
    )

-- A digit of a text of characters of one byte is one of them.
hex_digit-len : (n : ℕ) (s : String) → len s ≡ count s → len_utf8 (hex_digit n s) ≡ 1
unfolding hex_digit
hex_digit-len n [] h = refl
hex_digit-len n (c ∷ s) h = elim (Bool-cases (eqb n 0)) [
  | inl p ↦ rw p (one_byte c s h).0
  | inr p ↦ rw p (hex_digit-len (n - 1) s (one_byte c s h).1)
]

len-hex : (k n : ℕ) (rest : String) → len (hex k n rest) ≡ k + len rest
unfolding hex
len-hex zero n rest = omega arith
len-hex (suc k) n rest =
    let c = hex_digit (n % 16) "0123456789abcdef" in
    omega (
      arith,
      len-hex k (n / 16) (c ∷ rest),
      len.cons c rest,
      hex_digit-len (n % 16) "0123456789abcdef" refl,
    )

pub len-hash : (checksum : String → ℕ) (p : HostParams) → len (hash checksum p) ≡ 8
unfolding hash
len-hash checksum p = len-hex 8 (checksum (params_string p)) ""

within : (claim : DatabaseClaim) (u : Unit {0}) → check_name claim ≡ ok u → len claim.name ≤ 44
within claim u h = ground arith

name-bounded :
    (config : Viper) (claim : DatabaseClaim) (info : RequestInfo)
    → new_request_info config claim ≡ ok info
    → len claim.name ≤ 44
unfolding new_request_info
name-bounded config claim info h =
    let (p, e, h1) = bind-ok (or_wrapped (HostParams.new config claim)) _ h in
    let (u, e1, h2) = bind-ok (check_name claim) _ h1 in within claim u e1

prefix-bounded :
    (checksum : String → ℕ) (config : Viper)
    → len (name_prefix checksum config) ≤ len (get_db_identifier_prefix config) + 1
prefix-bounded checksum config = elim (Bool-cases (get_db_identifier_prefix config == "")) [
  | inl p ↦ rw p (omega arith)
  | inr p ↦ rw p (omega (arith, len-append (get_db_identifier_prefix config) "-"))
]

-- The host of a claim whose request is accepted has a name of at most 54 bytes behind the prefix
-- that the settings give.
pub host_name-bounded :
    (checksum : String → ℕ) (config : Viper) (claim : DatabaseClaim) (info : RequestInfo)
    (p : HostParams)
    → new_request_info config claim ≡ ok info
    → len (get_dynamic_host_name checksum config p claim)
      ≤ len (get_db_identifier_prefix config) + 54
unfolding get_dynamic_host_name
host_name-bounded checksum config claim info p h = omega (
  arith,
  name-bounded config claim info h,
  prefix-bounded checksum config,
  len-append (name_prefix checksum config) (claim.name <> ("-" <> hash checksum p)),
  len-append claim.name ("-" <> hash checksum p),
  len-append "-" (hash checksum p),
  len-hash checksum p,
)
