-- ===== src/Common.antt =====
-- The names that the components share: the libraries' passed on, and those of the children.
mod Tests
mod Lists
mod Sorting
mod Counting
mod Text
mod Decimal
pub mod Assoc
mod Int
mod Results
pub use Tests.*
unfoldable pub use Lists.*
unfoldable pub use Sorting.*
pub use Counting.*
unfoldable pub use Text.*
pub use Int.*
unfoldable pub use Results.*
unfoldable pub use Decimal.{decimal}
pub use Prim.Native.Nat.{ℕ, zero, suc, ◌+◌, ◌-◌, ◌*◌, ◌/◌, ◌%◌, ◌^◌, ◌≤◌, ◌<◌}
pub use Prim.Native.String.{String}
pub use mathlib.Core.Path.{◌≡◌, refl, sym, ap, subst, ◌∙◌}
pub use mathlib.Core.Logic.{◌≢◌, ◌↔◌, ◌⊎◌, inl, inr}
pub use mathlib.Core.Bool.{Bool, true, false, not, ◌&&◌, ◌||◌}
pub use mathlib.Core.Option.{Option, none, some}
pub use mathlib.Core.List.{List, [], ◌∷◌, ◌++◌, map}
pub use native.Mathlib.Omega.{arith}
