-- ===== src/Common.antt =====
-- The names that all modules share: the libraries', passed on, the Boolean tests and the lists of
-- the children, and signed integers for money that may fall below zero.
mod Tests
mod Lists
mod Errors
pub mod Int
pub mod Database
pub mod Queries
pub mod ListDatabase
pub use Tests.*
pub use Lists.*
pub use Errors.*
pub use Prim.Native.Nat.{◌^◌, ℕ, zero, suc, ◌+◌, ◌-◌, ◌*◌, ◌/◌, ◌%◌, ◌≤◌, ◌<◌, min, max}
pub use mathlib.Core.Path.{◌≡◌, refl, sym, ap, ◌∙◌, subst}
pub use mathlib.Core.Logic.{◌≢◌, ◌↔◌, ◌⊎◌, inl, inr}
pub use mathlib.Core.Bool.{Bool, true, false, ◌&&◌, ◌||◌, not}
pub use mathlib.Core.Option.{Option, none, some}
pub use mathlib.Core.List.{List, [], ◌∷◌, ◌++◌, map, append_assoc}
pub use native.Mathlib.Omega.{arith}
