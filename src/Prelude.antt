-- ===== src/Prelude.antt =====
-- The names that the other modules share: the libraries', passed on, and those of the children.
mod Tests
mod Lists
mod Members
mod Pairs
mod Texts
mod Trims
mod Results
mod Dicts
mod Sorts
mod Words
mod Numbers
mod Ints
pub use Tests.*
unfoldable pub use Lists.*
pub use Pairs.{Pairwise, keep-Pairwise, append-Pairwise}
pub use Members.*
unfoldable pub use Texts.*
pub use Trims.{HasNone, trim-none, trim-around}
unfoldable pub use Results.*
unfoldable pub use Dicts.*
unfoldable pub use Sorts.*
unfoldable pub use Words.*
unfoldable pub use Numbers.*
unfoldable pub use Ints.*
pub use Prim.Native.Nat.{ℕ, zero, suc, ◌+◌, ◌-◌, ◌*◌, ◌/◌, ◌%◌, ◌^◌, ◌≤◌, ◌<◌, min}
pub use mathlib.Core.Path.{◌≡◌, refl, sym, ap, ◌∙◌, subst}
pub use mathlib.Core.Logic.{◌≢◌, ◌↔◌, ◌⊎◌, inl, inr}
pub use mathlib.Core.Bool.{Bool, true, false, not, ◌&&◌, ◌||◌}
pub use mathlib.Core.Option.{Option, none, some}
pub use mathlib.Core.List.{List, [], ◌∷◌, ◌++◌, map, append-nil, append_assoc, reverse}
pub use native.Mathlib.Omega.{arith}
