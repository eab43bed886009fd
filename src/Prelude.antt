-- ===== src/Prelude.antt =====
-- The names that the other modules share: the libraries', passed on, and those of the children.
mod Tests
mod Lists
mod Int
mod Text
mod Space
pub mod Among
pub mod Compare
pub mod Maps
pub mod Options
pub mod Results
pub mod Sorting
pub use Tests.*
pub use Lists.*
pub use Int.*
pub use Text.*
pub use Space.*
unfoldable pub use Text.{eqb, cut, cut_prefix, onto_head, split, join}
unfoldable pub use Int.{scale_int64}
unfoldable pub use Space.{trim_space}
pub use Prim.Native.Nat.{
  ℕ, zero, suc, ◌+◌, ◌-◌, ◌*◌, ◌/◌, ◌%◌, ◌^◌, ◌≤◌, ◌<◌, min, compare, Ordering,
}
pub use mathlib.Core.Path.{◌≡◌, refl, sym, ap, ap₂, ◌∙◌, subst, fun_ext}
pub use mathlib.Core.Logic.{◌≢◌, ◌↔◌, ◌⊎◌, inl, inr}
pub use mathlib.Core.Bool.{Bool, true, false, ◌&&◌, ◌||◌, not}
pub use mathlib.Core.Option.{Option, none, some}
pub use mathlib.Core.List.{List, [], ◌∷◌, ◌++◌, map, append_assoc, append-nil, reverse}
pub use native.Mathlib.Omega.{arith}
