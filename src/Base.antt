-- ===== src/Base.antt =====
-- The names that the other modules share: the libraries', passed on, and those of the children.
mod Tests
mod Lists
mod Int
mod Text
mod Paths
mod Sorting
pub use Tests.*
pub use Lists.{
  length, length-append, take, is_empty, count_if-nil, count_if-append, count_if-snoc,
  select-append, any-append, any-snoc, any-none, any-imp, All, All-append, All-append_left,
  All-append_right, All-select, All-map,
}
unfoldable pub use Lists.{select, any, count_if}
pub use Int.*
pub use Text.{Str, codes, is_dot, is_dot_dot, str_eq_iff, str_eq_refl}
unfoldable pub use Text.{
  str_eq, contains, has_prefix, trim_slash, split_slash, join_slash, path_clean, path_dir,
}
pub use Prim.Native.Nat.{ℕ, zero, suc, ◌+◌, ◌-◌, ◌*◌, ◌/◌, ◌%◌, ◌^◌, ◌≤◌, ◌<◌}
pub use Prim.Native.String.{String}
pub use mathlib.Core.Path.{◌≡◌, refl, sym, ap, subst, ◌∙◌}
pub use mathlib.Core.Logic.{◌≢◌, ◌↔◌, ◌⊎◌, inl, inr}
pub use mathlib.Core.Bool.{Bool, true, false, ◌&&◌, ◌||◌, not}
pub use mathlib.Core.Option.{Option, none, some}
pub use mathlib.Core.List.{List, [], ◌∷◌, ◌++◌, map}
pub use native.Mathlib.Omega.{arith}
pub use Paths.{is_odd, path_clean-plain}
unfoldable pub use Sorting.{str_ltb, insert_sorted, sort_by}
