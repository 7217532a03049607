-- ===== src/Prelude.antt =====
-- The names that the components share: the libraries', and those of the modules below.
mod Tests
mod Int
mod Results
mod Lists
mod Text
mod Chars
mod Sorting
pub use Tests.*
pub use Int.*
pub use Results.*
pub use Lists.*
pub use Text.*
pub use Chars.*
pub use Sorting.*
unfoldable pub use Sorting.{insert_sorted, sort_by}
unfoldable pub use Int.{◌+ℤ◌, ◌-ℤ◌, ◌*ℤ◌, abs, max_ℤ, min_ℤ}
unfoldable pub use Results.{traverse}
unfoldable pub use Lists.{filter, all, any, first, total}
unfoldable pub use Text.{
  is_space, is_blank, contains, dedup_from, join, str_ℕ, str_ℤ, before_colon, take_str, lstrip_str,
  rstrip_str, strip_str,
}
unfoldable pub use Chars.{of_codes, strip, upper_code, upper, is_ascii, is_alpha}
pub use Prim.Native.Nat.{ℕ, zero, suc, ◌+◌, ◌-◌, ◌*◌, ◌≤◌, ◌<◌}
pub use Prim.Native.String.{String, ◌++◌ as str_append}
pub use mathlib.Core.Path.{◌≡◌, refl, sym, ap, subst, ◌∙◌}
pub use mathlib.Core.Logic.{◌≢◌, ◌↔◌, ◌⊎◌, inl, inr}
pub use mathlib.Core.Bool.{Bool, true, false, not, ◌&&◌, ◌||◌}
pub use mathlib.Core.Option.{Option, none, some}
pub use mathlib.Core.List.{List, [], ◌∷◌, ◌++◌, map}
pub use native.Mathlib.Omega.{arith}
pub use text.Mathlib.Text.{◌==◌ as str_eq}
pub use text.Mathlib.TextEquality.{eq_iff}
