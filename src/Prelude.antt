-- ===== src/Prelude.antt =====
-- The names that the other modules share: those of the libraries, passed on, and the children's:
-- tests on numbers, lists over the native numbers, bounded results of loops and exits, words.
mod Tests
mod Lists
mod Runs
mod Int
mod Text
mod Containers
pub use Tests.*
pub use Lists.*
pub use Runs.*
pub use Containers.{inc}
unfoldable pub use Containers.{bump, contains, set_insert, map_find, map_update}
pub use Text.{codes, is_empty, is_digit}
unfoldable pub use Text.{str_eq, strtoull, decimal, decimal_padded, digits_value}
pub use Int.{ℤ, pos, negsuc, is_positive}
pub use Prim.Native.Nat.{ℕ, zero, suc, ◌+◌, ◌-◌, ◌*◌, ◌/◌, ◌%◌, ◌^◌, ◌≤◌, ◌<◌, min, max}
pub use mathlib.Core.Path.{◌≡◌, refl, sym, ap, ap₂, subst, subst₂, ◌∙◌}
pub use mathlib.Core.Logic.{◌≢◌, ◌↔◌, ◌⊎◌, inl, inr}
pub use mathlib.Core.Bool.{Bool, true, false, ◌&&◌, ◌||◌, not}
pub use mathlib.Core.Option.{Option, none, some}
pub use mathlib.Core.List.{List, [], ◌∷◌, ◌++◌, map, append-nil, append_assoc}
pub use native.Mathlib.Omega.{arith}
