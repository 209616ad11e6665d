-- ===== src/Base.antt =====
-- The names that the other modules share: the libraries', passed on, and those of the children.
-- Go's `string` and `[]byte` are a `Text`, the list of its bytes; a Go map from strings is an
-- association list; `sort.Slice` is an insertion sort, which is one of the orders it may give.
mod Tests
mod Lists
mod Texts
mod Maps
mod Sort
mod Fields
mod Splits
mod Keys
mod Scans
mod Decimals
mod Trims
mod Tallies
mod Keyed
pub use Tests.*
pub use Lists.*
pub use Texts.*
pub use Maps.*
pub use Sort.*
unfoldable pub use Fields.*
pub use Splits.*
pub use Keys.*
unfoldable pub use Scans.*
pub use Trims.*
pub use Decimals.*
unfoldable pub use Tallies.*
pub use Keyed.*
pub use Prim.Native.Nat.{
  ℕ, zero, suc, ◌+◌, ◌-◌, ◌*◌, ◌/◌, ◌%◌, ◌^◌, ◌≤◌, ◌<◌, compare, Ordering, min, max,
}
pub use mathlib.Core.Path.{◌≡◌, refl, sym, ap, ◌∙◌, subst}
pub use mathlib.Core.Logic.{◌≢◌, ◌↔◌, ◌⊎◌, inl, inr}
pub use mathlib.Core.Bool.{Bool, true, false, not, ◌&&◌, ◌||◌}
pub use mathlib.Core.Option.{Option, none, some}
pub use mathlib.Core.List.{List, [], ◌∷◌, ◌++◌, map, append-nil, append_assoc, Perm, perm_middle}
pub use native.Mathlib.Omega.{arith}
