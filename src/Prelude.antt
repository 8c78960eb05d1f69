-- ===== src/Prelude.antt =====
-- The names that the other modules share: the libraries', passed on, and those of the children.
mod Tests
mod Lists
mod Members
mod Sorted
mod Bytes
mod Decimal
pub use Tests.*
pub use Lists.{
  length, take, head?, All, length-append, count-any, find-update, find_row-holds, append_nil,
  append_assoc, find-any, find-append, any-find, none-find, find-removed, where-update,
  where-append, count-none, update-none,
}
unfoldable pub use Lists.{where_rows, find_row, update_rows, any_row, count_rows, sort_rows}
pub use Members.{
  IsIn, All-from_IsIn, IsIn-All, All-append, All-update, IsIn-where, IsIn-sort, where-IsIn,
  sort-IsIn, any-IsIn, find-IsIn,
}
pub use Sorted.{
  newer, IsDescending, AreDistinct, last_key, drop, sort-IsDescending, where-sort, rest_of_page,
  take-drop, where_implied, where-holds, last_le, last_positive, length-drop, where-AreDistinct,
  where-IsDescending, where-where, All-sort, All-where, all_below,
}
pub use Bytes.{extend, Str, codes, eqs_iff, eqs_refl, is_empty, to_lower_idem, citext_eq_refl}
pub use Decimal.{value, value-itoa, itoa_last, IsDigit, itoa-injective, itoa-IsDigit, max_int64}
unfoldable pub use Decimal.{itoa, digits_value, unsigned}
unfoldable pub use Bytes.{
  split, join, eqs, is_space, trim_left, trim_space, lower, to_lower, citext_eq,
}
pub use Prim.Native.Nat.{ℕ, zero, suc, ◌+◌, ◌-◌, ◌*◌, ◌/◌, ◌%◌, ◌^◌, ◌≤◌, ◌<◌}
pub use mathlib.Core.Path.{◌≡◌, refl, sym, ap, ◌∙◌}
pub use mathlib.Core.Logic.{◌≢◌, ◌↔◌, ◌⊎◌, inl, inr}
pub use mathlib.Core.Bool.{Bool, true, false, not, ◌&&◌, ◌||◌}
pub use mathlib.Core.Option.{Option, none, some}
pub use mathlib.Core.List.{List, [], ◌∷◌, ◌++◌, map, reverse}
pub use native.Mathlib.Omega.{arith}
