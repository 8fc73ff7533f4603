-- ===== src/Prelude/Text.antt =====
-- Go's `strings` functions that the program calls, over native texts. A text is walked by
-- characters; the names that the program handles are ASCII, where these are its bytes.
use Prim.Native.Nat.{ℕ}
use Prim.Native.Char.{Char, code}
use Prim.Native.String.{String, [], ◌∷◌, ◌++◌ as ◌+++◌, count}
use mathlib.Core.Path.{◌≡◌, refl, sym, ap, ◌∙◌}
use mathlib.Core.Logic.{◌≢◌, inl, inr}
use mathlib.Core.Bool.{Bool, true, false, ◌||◌}
use native.Mathlib.Omega.{arith}
use text.Mathlib.Text.{◌==◌, starts_with}
use text.Mathlib.TextEquality.{eq_iff}
use text.Mathlib.TextPositions.{eq_refl}
use text.Mathlib.TextLemmas.{length-append, length-cons, nil-append, cons-append, append_inj}
use db_controller.Prelude.Tests.{eqb, if◌then◌else◌, Bool-cases}

-- `a + b` of two texts
infixr 65 ◌<>◌
abbrev pub ◌<>◌ : String → String → String
a <> b = a +++ b

-- strings.HasSuffix
unfoldable pub has_suffix : String → String → Bool
has_suffix [] suffix = [] == suffix
has_suffix (c ∷ s) suffix = (c ∷ s) == suffix || has_suffix s suffix

-- strings.TrimSuffix
unfoldable pub trim_suffix : String → String → String
trim_suffix [] suffix = []
trim_suffix (c ∷ s) suffix = if (c ∷ s) == suffix then [] else c ∷ trim_suffix s suffix

-- strings.Split(s, sep)[0], and the first result of strings.Cut, for a separator of one character
unfoldable pub before : ℕ → String → String
before sep [] = []
before sep (c ∷ s) = if eqb (code c) sep then [] else c ∷ before sep s

-- strings.Split(s, sep)[1]; none where there is no such part
unfoldable pub after : ℕ → String → String
after sep [] = []
after sep (c ∷ s) = if eqb (code c) sep then s else after sep s

unfoldable pub has_char : ℕ → String → Bool
has_char sep [] = false
has_char sep (c ∷ s) = eqb (code c) sep || has_char sep s

-- strings.Contains
unfoldable pub contains : String → String → Bool
contains [] part = [] == part
contains (c ∷ s) part = starts_with (c ∷ s) part || contains s part

-- A text is not a proper suffix of itself.
ne_of_longer : (b suffix : String) (c : Char) → (c ∷ (b +++ suffix)) ≢ suffix
ne_of_longer b suffix c e =
    absurd (omega (arith, ap count e, length-cons c (b +++ suffix), length-append b suffix))

longer-ne : (b suffix : String) (c : Char) → ((c ∷ (b +++ suffix)) == suffix) ≡ false
longer-ne b suffix c = elim (Bool-cases ((c ∷ (b +++ suffix)) == suffix)) [
  | inl p ↦ absurd (ne_of_longer b suffix c ((eq_iff _ _).0 p))
  | inr p ↦ p
]

has_suffix_self : (suffix : String) → has_suffix suffix suffix ≡ true
unfolding has_suffix
has_suffix_self [] = refl
has_suffix_self (c ∷ s) = rw eq_refl

trim_suffix_self : (suffix : String) → trim_suffix suffix suffix ≡ []
unfolding trim_suffix
trim_suffix_self [] = refl
trim_suffix_self (c ∷ s) = rw eq_refl

pub has_suffix-append : (b suffix : String) → has_suffix (b <> suffix) suffix ≡ true
unfolding has_suffix
has_suffix-append [] suffix = rw nil-append (has_suffix_self suffix)
has_suffix-append (c ∷ b) suffix =
    rw (cons-append c b suffix) (rw (longer-ne b suffix c) (has_suffix-append b suffix))

pub trim_suffix-append : (b suffix : String) → trim_suffix (b <> suffix) suffix ≡ b
unfolding trim_suffix
trim_suffix-append [] suffix = rw nil-append (trim_suffix_self suffix)
trim_suffix-append (c ∷ b) suffix =
    rw (cons-append c b suffix)
      (rw (longer-ne b suffix c) (ap (λ t. c ∷ t) (trim_suffix-append b suffix)))

-- What does not end in the suffix is left as it is.
pub trim_suffix_none : (s suffix : String) → has_suffix s suffix ≡ false → trim_suffix s suffix ≡ s
unfolding trim_suffix has_suffix
trim_suffix_none [] suffix h = refl
trim_suffix_none (c ∷ s) suffix h = ground (arith, trim_suffix_none s suffix)

-- What ends in the suffix is a text followed by it.
pub has_suffix-parts :
    (s suffix : String) → has_suffix s suffix ≡ true → (b : String) × (s ≡ b <> suffix)
unfolding has_suffix
has_suffix-parts [] suffix h = ([], (eq_iff _ _).0 h ∙ sym (nil-append suffix))
has_suffix-parts (c ∷ s) suffix h = elim (Bool-cases ((c ∷ s) == suffix)) [
  | inl p ↦ ([], (eq_iff _ _).0 p ∙ sym (nil-append suffix))
  | inr p ↦
      let (b, e) = has_suffix-parts s suffix (rw p at h) in
      (c ∷ b, ap (λ t. c ∷ t) e ∙ sym (cons-append c b suffix))
]

-- A text that ends in one suffix does not end in another of the same length.
pub has_suffix-other : (b s t : String) → count s ≡ count t → s ≢ t → has_suffix (b <> s) t ≡ false
has_suffix-other b s t n h = elim (Bool-cases (has_suffix (b <> s) t)) [
  | inl p ↦
      let (d, e) = has_suffix-parts (b <> s) t p in
      absurd (
        h
          (append_inj {s₁ = b} {s₂ = d} e
            (omega (arith, n, ap count e, length-append b s, length-append d t))).1)
  | inr p ↦ p
]

-- The part before a separator does not hold it, and is all of a text without one.
pub has_char-before : (sep : ℕ) (s : String) → has_char sep (before sep s) ≡ false
unfolding has_char before
has_char-before sep [] = refl
has_char-before sep (c ∷ s) = elim (Bool-cases (eqb (code c) sep)) [
  | inl p ↦ rw p
  | inr p ↦ rw p (rw p (has_char-before sep s))
]

pub before-none : (sep : ℕ) (s : String) → has_char sep s ≡ false → before sep s ≡ s
unfolding has_char before
before-none sep [] h = refl
before-none sep (c ∷ s) h = ground (arith, before-none sep s)
