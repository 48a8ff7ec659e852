-- ===== src/Base.antt =====
-- The names that the other modules share: the libraries', passed on, and those of the children
-- (Boolean tests, lists, integers, byte strings, maps).
mod Tests
mod Lists
mod Text
mod Maps
mod Trim
pub mod Int
pub mod Order
pub use Tests.*
pub use Lists.*
unfoldable pub use Text.{str_eq, has_prefix, contains, to_lower}
pub use Text.{Str, text, elem, str_eq_refl, str_eq→eq, eq→str_eq, str_eq_iff, str_eq-false}
unfoldable pub use Trim.{trim_by, trim_space}
unfoldable pub use Maps.{lookup, insert, delete, has}
pub use Maps.{Assoc, lookup-insert, lookup-delete, Absent, Distinct, lookup-Absent, insert-Distinct}
pub use Prim.Native.Nat.{ℕ, zero, suc, ◌+◌, ◌-◌, ◌*◌, ◌/◌, ◌%◌, ◌^◌, ◌≤◌, ◌<◌, min, max}
pub use mathlib.Core.Path.{◌≡◌, refl, sym, ap, ◌∙◌}
pub use mathlib.Core.Logic.{◌≢◌, ◌↔◌, ◌⊎◌, inl, inr}
pub use mathlib.Core.Bool.{Bool, true, false, not, ◌&&◌, ◌||◌}
pub use mathlib.Core.Option.{Option, none, some}
pub use mathlib.Core.List.{List, [], ◌∷◌, ◌++◌, map}
pub use native.Mathlib.Omega.{arith}
