-- ===== src/HostParams/Text.antt =====
-- strconv.Atoi and strings.ToLower.
use Prim.Native.Char.{Char, code}
use Prim.Native.String.{[], ◌∷◌}
use db_controller.Prelude.{
  ℕ, ℤ, pos, negsuc, ◌+◌, ◌-◌, ◌*◌, ◌^◌, ltb, leb, eqb, String, Option, none, some, ◌&&◌, ◌==◌,
  if◌then◌else◌,
}

digits : ℕ → String → Option ℕ
digits n [] = some n
digits n (c ∷ s) =
    let rest = digits (n * 10 + (code c - 48)) s in
    if leb 48 (code c) && leb (code c) 57 then rest else none

abbrev unsigned : String → Option ℕ
unsigned s = if s == "" then none else digits 0 s

abbrev positive : Option ℕ → Option ℤ
positive none = none
positive (some n) = if ltb n (2 ^ 63) then some (pos n) else none

abbrev negative : Option ℕ → Option ℤ
negative none = none
negative (some n) =
    if eqb n 0 then some (pos 0) else if leb n (2 ^ 63) then some (negsuc (n - 1)) else none

-- strconv.Atoi on a 64-bit `int`: none stands for its errors, of syntax and of range.
unfoldable pub atoi : String → Option ℤ
unfolding digits
atoi [] = none
atoi (c ∷ s) =
    if eqb (code c) b'-'
    then negative (unsigned s)
    else if eqb (code c) b'+'
    then positive (unsigned s)
    else positive (unsigned (c ∷ s))

abbrev letters : String
letters = "abcdefghijklmnopqrstuvwxyz"

-- the n-th character of a text, or the other one
nth_or : Char → ℕ → String → Char
nth_or d n [] = d
nth_or d n (c ∷ s) = if eqb n 0 then c else nth_or d (n - 1) s

-- strings.ToLower, on ASCII
unfoldable pub to_lower : String → String
unfolding nth_or
to_lower [] = []
to_lower (c ∷ s) =
    (if leb 65 (code c) && leb (code c) 90 then nth_or c (code c - 65) letters else c) ∷ to_lower s
