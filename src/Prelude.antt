-- ===== src/Prelude.antt =====
-- Names that every module shares: the libraries', passed on, and those of five children.
mod Tests
mod Lists
mod Text
mod Int
mod Maps
pub use Tests.*
pub use Int.*
unfoldable pub use Maps.{lookup, insert, remove, value}
pub use Maps.{Map, lookup-insert, lookup-All, or_empty, value-insert, value-remove}
pub use Lists.*
unfoldable pub use Text.{has_suffix, trim_suffix, before, after, has_char, contains}
pub use Text.{
  ◌<>◌, has_suffix-append, has_suffix-parts, has_suffix-other, trim_suffix-append, trim_suffix_none,
  has_char-before, before-none,
}
pub use Prim.Native.Nat.{ℕ, zero, suc, ◌+◌, ◌-◌, ◌*◌, ◌/◌, ◌%◌, ◌^◌, ◌≤◌, ◌<◌}
pub use Prim.Native.String.{String}
pub use mathlib.Core.Path.{◌≡◌, refl, sym, ap, subst, ◌∙◌}
pub use mathlib.Core.Logic.{◌≢◌, ◌↔◌, ◌⊎◌, inl, inr}
pub use mathlib.Core.Bool.{Bool, true, false, not, ◌&&◌, ◌||◌}
pub use mathlib.Core.Option.{Option, none, some}
pub use mathlib.Core.List.{List, [], ◌∷◌, ◌++◌, map}
pub use native.Mathlib.Omega.{arith}
pub use text.Mathlib.Text.{◌==◌}
pub use text.Mathlib.TextEquality.{eq_iff}
pub use text.Mathlib.TextPositions.{eq_refl}
