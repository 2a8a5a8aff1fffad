-- ===== src/Prelude.antt =====
-- The names that the other modules share: the libraries', passed on, and those of the children.
mod Tests
mod Lists
mod Strings
pub mod Sort
pub mod Unique
pub mod Int
pub use Tests.*
pub use Lists.*
pub use Strings.{
  Text, codes, then_cmp, text_lt, text_le, text_eq, text_eq_iff, text_eq_refl, compare_text-append,
  compare_text_refl, compare_text-swap, text_lt_irrefl, swap_cmp, text_le-total, text_le_trans,
  text_eq-false, upper_idem, upper_char_idem, any_suffix-true,
}
unfoldable pub use Strings.{
  compare_text, upper_char, upper, is_space, lstrip, strip, starts_with, like, any_suffix, like_one,
  is_empty,
}
pub use Prim.Native.Nat.{ℕ, zero, suc, ◌+◌, ◌-◌, ◌*◌, ◌/◌, ◌%◌, ◌^◌, ◌≤◌, ◌<◌, min, max}
pub use Prim.Native.String.{String}
pub use mathlib.Core.Path.{◌≡◌, refl, sym, ap, ◌∙◌}
pub use mathlib.Core.Logic.{◌≢◌, ◌↔◌, ◌⊎◌, inl, inr}
pub use mathlib.Core.Bool.{Bool, true, false, not, ◌&&◌, ◌||◌}
pub use mathlib.Core.Option.{Option, none, some}
pub use mathlib.Core.List.{List, [], ◌∷◌, ◌++◌, map}
pub use native.Mathlib.Omega.{arith}
