-- ===== src/Base.antt =====
-- The names that every other module shares: the libraries', passed on, and those of the children
-- `Tests` (Boolean tests), `Lists` (lists and options), `Rows` (tables of keyed rows) and `Text`.
mod Tests
mod Lists
mod Rows
mod Text
pub use Tests.*
pub use Lists.*
pub use Rows.*
unfoldable pub use Text.{shorten}
pub use Text.{
  codes, join, trim, is_blank, same_text, starts_with, includes, is_white, trim_start, trim_end,
  decimal, digits,
}
pub use Prim.Native.Nat.{ℕ, zero, suc, ◌+◌, ◌-◌, ◌*◌, ◌/◌, ◌%◌, ◌^◌, ◌≤◌, ◌<◌, min, max}
pub use mathlib.Core.Path.{◌≡◌, refl, sym, ap, subst, ◌∙◌}
pub use mathlib.Core.Logic.{◌≢◌, ◌↔◌, ◌⊎◌, inl, inr}
pub use mathlib.Core.Bool.{Bool, true, false, not, ◌&&◌, ◌||◌}
pub use mathlib.Core.Option.{Option, none, some}
pub use mathlib.Core.List.{List, [], ◌∷◌, ◌++◌, map}
pub use native.Mathlib.Omega.{arith}
