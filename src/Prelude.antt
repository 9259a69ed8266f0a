-- ===== src/Prelude.antt =====
-- The names that the other modules share: the libraries', passed on, and those of the children.
mod Tests
mod Lists
mod Maps
mod Strings
mod Split
mod Tables
mod Sort
mod Results
mod Signed
pub use Signed.{ℤ, pos, negsuc, to_nat, abs, IsWithin, ⊖-IsWithin}
unfoldable pub use Signed.{◌⊖◌}
pub use Tests.*
pub use Lists.*
pub use Maps.{set_at_same, set_at_other, set_at-pending}
unfoldable pub use Maps.{set_at, pair_eq, pair_beq}
pub use Results.*
pub use Sort.{
  text_leb_total, IsSorted, sort-IsSorted, sort-All, sort_of_sorted, sort-In, sort-nonempty,
}
unfoldable pub use Sort.{sort}
pub use Strings.{
  Text, codes, text_beq_sound, text_beq_refl, text_beq_iff, text_eq, cut_prefix-append,
  cut_prefix_sound, is_some, one_of_all, contains_any_free, cut_prefix-has_prefix,
  has_prefix-append, has_prefix_split, has_byte-append,
}
unfoldable pub use Strings.{text_beq, has_prefix, cut_prefix, has_byte, contains_any, is_empty}
pub use Split.{
  Free, push_byte, split-Free_self, split-append, split_n-Free, split_n-append, cut_cases,
  split-nonempty, Free-join, Free-append, split-Free, split_step, split_n_step, join-cons, join-one,
  join-split, split-join,
}
unfoldable pub use Split.{split, split_n, join}
pub use Tables.{
  Table, lookup-insert, lookup-erase, length-insert-le, length-le-insert, length-erase-le,
  length-insert-some, table-empty, length-erase-some,
}
unfoldable pub use Tables.{lookup, insert, erase}
pub use Prim.Native.Nat.{ℕ, zero, suc, ◌+◌, ◌-◌, ◌*◌, ◌/◌, ◌%◌, ◌^◌, ◌≤◌, ◌<◌, min, max}
pub use Prim.Native.String.{String}
pub use mathlib.Core.Path.{◌≡◌, refl, sym, ap, subst, ◌∙◌}
pub use mathlib.Core.Logic.{◌≢◌, ◌↔◌, ◌⊎◌, inl, inr}
pub use mathlib.Core.Bool.{Bool, true, false, not, ◌&&◌, ◌||◌, or-false}
pub use mathlib.Core.Option.{Option, none, some}
pub use mathlib.Core.List.{List, [], ◌∷◌, ◌++◌, map, append-nil, append_assoc, tail}
pub use native.Mathlib.Omega.{arith}
