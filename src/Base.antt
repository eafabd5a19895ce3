-- ===== src/Base.antt =====
-- The names that the other modules share: the libraries', passed on, and those of the children.
mod Tests
mod Lists
pub mod Int
pub mod Float
pub mod Shuffling
pub mod Text
pub mod Assoc
pub mod Distinct
pub mod Sorting
pub mod Cutting
pub use Tests.*
pub use Lists.{All, length, length-append, filter_none, All-append, All-filter, All-update_where}
unfoldable pub use Lists.{any, find, filter, update_where}
pub use Int.{ℤ, pos, negsuc, pos_part, neg_part, neg_ℕ, sub_ℕ, ◌+ℤ◌, ◌≤ℤ◌, ltb_ℤ, +ℤ_parts, scale_ℤ}
unfoldable pub use Int.{round_div}
unfoldable pub use Text.{Str, str_eq, codes}
pub use Text.{str_eq_iff, str_eq_refl}
pub use Prim.Native.Nat.{ℕ, zero, suc, ◌+◌, ◌-◌, ◌*◌, ◌/◌, ◌%◌, ◌^◌, ◌≤◌, ◌<◌}
pub use mathlib.Core.Path.{◌≡◌, refl, sym, ap, ◌∙◌, subst}
pub use mathlib.Core.Logic.{◌≢◌, ◌↔◌, ◌⊎◌, inl, inr}
pub use mathlib.Core.Bool.{Bool, true, false, not, ◌&&◌, ◌||◌}
pub use mathlib.Core.Option.{Option, none, some}
pub use mathlib.Core.List.{List, [], ◌∷◌, ◌++◌, map}
pub use native.Mathlib.Omega.{arith}
