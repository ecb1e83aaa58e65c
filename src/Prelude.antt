-- ===== src/Prelude.antt =====
-- The names that the other modules share: the libraries', passed on, and those of three children.
mod Tests
mod Lists
mod Strings
mod Int
mod Amounts
mod Tables
mod Growth
pub use Tables.{
  first, All-update_where, map-update_where, update_where_none, update_where_unseen, map-All,
  All-Memᴰ, All-of_Memᴰ, Distinct, Distinct-only, Memᴰ-kept, Memᴰ-updated, Memᴰ-changed,
  All-updated, zip-All, any-Memᴰ, first-select_where, select_where-update_where, select_where_one,
  Distinct-update_where,
}
unfoldable pub use Tables.{update_where, select_where}
pub use Growth.{any-false, any_of_Memᴰ, All-append, select_where-append, Distinct-added}
pub use Tests.*
pub use Lists.*
unfoldable pub use Strings.{text_eq, is_space, lstrip, strip, without_space}
pub use Amounts.{Decimal, zero_decimal, pos_part, neg_part}
unfoldable pub use Amounts.{scaled, lt_decimal}
pub use Int.{ℤ, pos, negsuc, is_digit}
unfoldable pub use Int.{int_digits, int}
pub use Strings.{Text, text, is_empty, text_eq_refl, text_eq→eq, text_eq_iff, text_eq_differs}
pub use Prim.Native.Nat.{ℕ, zero, suc, ◌+◌, ◌-◌, ◌*◌, ◌/◌, ◌%◌, ◌^◌, ◌≤◌, ◌<◌, min, max}
pub use mathlib.Core.Path.{◌≡◌, refl, subst, sym, ap, ◌∙◌}
pub use mathlib.Core.Logic.{◌≢◌, ◌↔◌, ◌⊎◌, inl, inr}
pub use mathlib.Core.Bool.{Bool, true, false, not, ◌&&◌, ◌||◌}
pub use mathlib.Core.Option.{Option, none, some}
pub use mathlib.Core.List.{List, [], ◌∷◌, ◌++◌, map}
pub use native.Mathlib.Omega.{arith}
