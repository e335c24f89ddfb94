-- ===== src/Common.antt =====
-- The names that the other modules share: the libraries', passed on, and small helpers.
mod Tests
mod Maps
mod Decimal
mod Integers
pub use Tests.*
unfoldable pub use Decimal.{decimal}
pub use Integers.{ℤ, pos, negsuc, int_eq, int_eq-true, int_decimal}
unfoldable pub use Maps.{lookup, insert}
pub use Maps.{lookup-insert, lookup-insert_self}
pub use Prim.Native.Nat.{ℕ, zero, suc, ◌+◌, ◌≤◌, ◌<◌}
pub use Prim.Native.String.{String}
pub use mathlib.Core.Path.{◌≡◌, refl, sym, ap, ◌∙◌, fun_ext}
pub use mathlib.Core.Logic.{◌≢◌, ◌↔◌, ◌⊎◌, inl, inr}
pub use mathlib.Core.Bool.{Bool, true, false, not, ◌&&◌, ◌||◌}
pub use mathlib.Core.Option.{Option, none, some}
pub use mathlib.Core.List.{List, [], ◌∷◌, ◌++◌, map}
pub use native.Mathlib.Omega.{arith}
pub use text.Mathlib.Text.{◌==◌}
pub use text.Mathlib.TextEquality.{eq_iff}
pub use text.Mathlib.TextPositions.{eq_refl}
