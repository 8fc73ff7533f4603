-- ===== src/Prelude/Maps.antt =====
-- Go's maps with text keys, as association lists.
use Prim.Native.String.{String}
use mathlib.Core.Path.{◌≡◌, refl, subst}
use mathlib.Core.Logic.{inl, inr}
use mathlib.Core.Option.{Option, none, some}
use mathlib.Core.List.{List, [], ◌∷◌}
use native.Mathlib.Omega.{arith}
use text.Mathlib.Text.{◌==◌}
use text.Mathlib.TextEquality.{eq_iff}
use db_controller.Prelude.Tests.{if◌then◌else◌, Bool-cases}
use db_controller.Prelude.Lists.{All}

abbrev pub Map {ℓ} : Type ℓ → Type ℓ
Map V = List (String × V)

module _ {ℓ} {V : Type ℓ} where
  -- m[k], with none on a missing key
  unfoldable pub lookup : String → Map V → Option V
  lookup k [] = none
  lookup k ((j, v) ∷ m) = if j == k then some v else lookup k m

  -- m[k] = v
  unfoldable pub insert : String → V → Map V → Map V
  insert key new [] = (key, new) ∷ []
  insert key new ((j, old) ∷ rest) =
      if j == key then (key, new) ∷ rest else (j, old) ∷ insert key new rest

  pub lookup-insert :
      (key other : String) (new : V) (m : Map V)
      → lookup other (insert key new m) ≡ (if key == other then some new else lookup other m)
  unfolding lookup insert
  lookup-insert key other new [] = refl
  lookup-insert key other new ((i, old) ∷ rest) =
      ground
        (arith, eq_iff i key, eq_iff i other, eq_iff key other, lookup-insert key other new rest)

  -- delete(m, k)
  unfoldable pub remove : String → Map V → Map V
  remove key [] = []
  remove key ((j, v) ∷ rest) = if j == key then remove key rest else (j, v) ∷ remove key rest

  pub lookup-remove :
      (key other : String) (m : Map V)
      → lookup other (remove key m) ≡ (if key == other then none else lookup other m)
  unfolding lookup remove
  lookup-remove key other [] = ground arith
  lookup-remove key other ((i, v) ∷ rest) =
      ground (arith, eq_iff i key, eq_iff i other, eq_iff key other, lookup-remove key other rest)

-- m[k] of a map of texts, which is empty on a missing key
abbrev pub or_empty : Option String → String
or_empty none = ""
or_empty (some s) = s

unfoldable pub value : String → Map String → String
value k m = or_empty (lookup k m)

pub value-insert :
    (key other new : String) (m : Map String)
    → value other (insert key new m) ≡ (if key == other then new else value other m)
unfolding value
value-insert key other new m = rw lookup-insert (ground arith)

pub value-remove :
    (key other : String) (m : Map String)
    → value other (remove key m) ≡ (if key == other then "" else value other m)
unfolding value
value-remove key other m = rw lookup-remove (ground arith)

module _ {ℓ κ} {V : Type ℓ} (P : String → V → Type κ) where
  -- What holds of every entry holds of what is found.
  pub lookup-All :
      (k : String) (v : V) (m : Map V)
      → All (λ (e : String × V). P e.0 e.1) m
      → lookup k m ≡ some v
      → P k v
  unfolding lookup
  lookup-All k v [] all h = cc
  lookup-All k v ((j, w) ∷ m) all h = elim (Bool-cases (j == k)) [
    | inl p ↦
        let e : w ≡ v = ground (arith, h, p) in
        subst (λ x. P x v) ((eq_iff j k).0 p) (subst (λ x. P j x) e all.0)
    | inr p ↦ lookup-All k v m all.1 (rw p at h)
  ]
