-- ===== src/Base.antt =====
-- The names that every module shares: the libraries' names, passed on, and those of the children.
mod Compare
mod Lists
mod Strings
mod Digits
mod Dict
mod Int
mod Sorting
mod Async
mod Within
mod Members
unfoldable pub use Compare.*
unfoldable pub use Lists.*
unfoldable pub use Strings.*
unfoldable pub use Digits.*
unfoldable pub use Dict.*
unfoldable pub use Int.*
unfoldable pub use Sorting.*
unfoldable pub use Async.*
unfoldable pub use Within.*
unfoldable pub use Members.*
pub use Prim.Native.Nat.{ℕ, zero, suc, ◌+◌, ◌-◌, ◌*◌, ◌/◌, ◌%◌, ◌^◌, ◌≤◌, ◌<◌, max, min}
pub use Prim.Native.Nat.{zero-le, suc-le-suc}
pub use native.Mathlib.Nat.{add_comm, add_assoc, le_refl, le_trans}
pub use mathlib.Core.Path.{◌≡◌, refl, sym, subst, ap, ap₂, ◌∙◌, ◌≡⟨◌⟩◌, ◌∎}
pub use mathlib.Core.Logic.{◌≢◌, ◌↔◌, ◌⊎◌, inl, inr}
pub use mathlib.Core.Bool.{Bool, true, false, not, ◌&&◌, ◌||◌}
pub use mathlib.Core.Option.{Option, none, some}
pub use mathlib.Core.List.{List, [], ◌∷◌, ◌++◌, map, reverse}
pub use mathlib.Core.List.{reverse-append, append-nil, append_assoc}
pub use native.Mathlib.Omega.{arith}
