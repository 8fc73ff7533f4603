-- ===== src/Prelude/Int.antt =====
-- Go's signed integers, as far as the program compares them: `negsuc n` is -(n + 1).
use Prim.Native.Nat.{ℕ, ◌≤◌, ◌-◌, ◌*◌, ◌/◌, suc}
use mathlib.Core.Path.{◌≡◌}
use mathlib.Core.Bool.{Bool, true, false}
use native.Mathlib.Omega.{arith}
use db_controller.Prelude.Tests.{ltb, leb, eqb, if◌then◌else◌}

pub data ℤ : Type 0 where
  pos : ℕ → ℤ
  negsuc : ℕ → ℤ

infix 50 ◌≤ℤ◌ ◌<ℤ◌
abbrev pub ◌≤ℤ◌ : ℤ → ℤ → Type 0
pos a ≤ℤ pos b = a ≤ b
pos a ≤ℤ negsuc b = ⊥
negsuc a ≤ℤ pos b = Unit
negsuc a ≤ℤ negsuc b = b ≤ a

abbrev pub ◌<ℤ◌ : ℤ → ℤ → Type 0
pos a <ℤ pos b = suc a ≤ b
pos a <ℤ negsuc b = ⊥
negsuc a <ℤ pos b = Unit
negsuc a <ℤ negsuc b = suc b ≤ a

abbrev pub ltz : ℤ → ℤ → Bool
ltz (pos a) (pos b) = ltb a b
ltz (pos a) (negsuc b) = false
ltz (negsuc a) (pos b) = true
ltz (negsuc a) (negsuc b) = ltb b a

abbrev pub lez : ℤ → ℤ → Bool
lez (pos a) (pos b) = leb a b
lez (pos a) (negsuc b) = false
lez (negsuc a) (pos b) = true
lez (negsuc a) (negsuc b) = leb b a

abbrev pub eqz : ℤ → ℤ → Bool
eqz (pos a) (pos b) = eqb a b
eqz (negsuc a) (negsuc b) = eqb a b
eqz _ _ = false

-- a - b of two times
abbrev pub since : ℕ → ℕ → ℤ
since a b = if leb b a then pos (a - b) else negsuc (b - a - 1)

-- -n, and Go's division, which rounds to zero, by a number that is not zero
abbrev pub opposite : ℕ → ℤ
opposite n = if eqb n 0 then pos 0 else negsuc (n - 1)

abbrev pub quotient : ℤ → ℕ → ℤ
quotient (pos n) d = pos (n / d)
quotient (negsuc n) d = opposite (suc n / d)

abbrev pub times : ℤ → ℕ → ℤ
times (pos n) d = pos (n * d)
times (negsuc n) d = opposite (suc n * d)

pub ltz-false→le : (a b : ℤ) → ltz a b ≡ false → b ≤ℤ a
ltz-false→le (pos a) (pos b) h = ground arith
ltz-false→le (pos a) (negsuc b) h = tt
ltz-false→le (negsuc a) (pos b) h = cc
ltz-false→le (negsuc a) (negsuc b) h = ground arith

pub lez-false→lt : (a b : ℤ) → lez a b ≡ false → b <ℤ a
lez-false→lt (pos a) (pos b) h = ground arith
lez-false→lt (pos a) (negsuc b) h = tt
lez-false→lt (negsuc a) (pos b) h = cc
lez-false→lt (negsuc a) (negsuc b) h = ground arith

pub eqz→eq : (a b : ℤ) → eqz a b ≡ true → a ≡ b
eqz→eq (pos a) (pos b) h = ground arith
eqz→eq (pos a) (negsuc b) h = cc
eqz→eq (negsuc a) (pos b) h = cc
eqz→eq (negsuc a) (negsuc b) h = ground arith

pub eqz_refl : (a : ℤ) → eqz a a ≡ true
eqz_refl (pos a) = ground arith
eqz_refl (negsuc a) = ground arith
