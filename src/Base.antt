-- ===== src/Base.antt =====
-- The names that the other modules share: the libraries', passed on, and those of the children.
mod Tests
mod Lists
mod Text
mod Decimal
mod Maps
pub use Tests.*
pub use Lists.*
unfoldable pub use Text.{
  text_contains, join, split, trim_left, trim_space, free_of, is_space, quoted, has_space,
}
pub use Text.{
  split-join, trim_space-clean, split-free, text_eq_refl, cons-ne-empty, append-ne-empty,
}
pub use Text.Trim.{split_free, trim_space-free, trim_space_idem}
unfoldable pub use Decimal.{decimal, decimal_int, parse_decimal}
pub use Decimal.{parse_decimal-decimal, decimal-injective}
pub use Maps.{
  Map, lookup-delete, lookup-put, delete-delete, delete_missing, All-delete, delete-perm,
}
unfoldable pub use Maps.{lookup, delete, put}
pub use Prim.Native.Nat.{ℕ, zero, suc, ◌+◌, ◌-◌, ◌*◌, ◌/◌, ◌%◌, ◌^◌, ◌≤◌, ◌<◌, min}
pub use Prim.Native.String.{String, ◌++◌ as ◌^^◌}
pub use mathlib.Core.Path.{◌≡◌, refl, sym, ap, ◌∙◌, subst}
pub use mathlib.Core.Logic.{◌≢◌, ◌↔◌, ◌⊎◌, inl, inr}
pub use mathlib.Core.Bool.{Bool, true, false, not, ◌&&◌, ◌||◌}
pub use mathlib.Core.Option.{Option, none, some}
pub use mathlib.Core.List.{List, [], ◌∷◌, ◌++◌, map}
pub use native.Mathlib.Omega.{arith}
pub use text.Mathlib.TextEquality.{eq_iff}
pub use mathlib.Core.List.{Permᴰ, Memᴰ}
