-- ===== src/Base.antt =====
-- The names that the other modules share: the libraries', passed on, and those of the children.
mod Tests
mod Lists
mod Text
mod Sort
mod Time
mod Chars
mod Strings
pub use Strings.Breaks.{OneLine, lines-OneLine, length-lines-join_le}
pub use Tests.*
pub use Lists.*
pub use Sort.*
pub use Time.*
unfoldable pub use Chars.{chars}
pub use text.Mathlib.TextBridge.{of_list}
unfoldable pub use Strings.{
  is_whitespace, lines, split_whitespace, trim_matches, trim, contains_text, strip_prefix, join,
  before_first,
}
pub use Text.{concat}
unfoldable pub use Text.{show}
pub use Prim.Native.Nat.{ℕ, zero, suc, ◌+◌, ◌-◌, ◌*◌, ◌/◌, ◌%◌, ◌^◌, ◌≤◌, ◌<◌, min, max}
pub use Prim.Native.String.{String}
pub use mathlib.Core.Path.{◌≡◌, refl, sym, ap, ◌∙◌, subst}
pub use mathlib.Core.Logic.{◌≢◌, ◌↔◌, ◌⊎◌, inl, inr}
pub use mathlib.Core.Bool.{Bool, true, false, not, ◌&&◌, ◌||◌}
pub use mathlib.Core.Option.{Option, none, some}
pub use mathlib.Core.List.{List, [], ◌∷◌, ◌++◌, map}
pub use native.Mathlib.Omega.{arith}
pub use text.Mathlib.TextEquality.{eq_iff}
