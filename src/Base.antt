-- ===== src/Base.antt =====
-- The names that every module shares: the libraries' own, passed on, and those of the children,
-- which hold Boolean tests, lists over the native numbers, machine words and keyed tables.
mod Tests
mod Lists
mod Word
mod Bytes
mod Tables
pub mod OptionBind
pub mod Results
pub use Tests.*
pub use Lists.*
pub use Word.*
pub use Bytes.*
unfoldable pub use Tables.*
pub use Prim.Native.Nat.{ℕ, zero, suc, ◌+◌, ◌-◌, ◌*◌, ◌/◌, ◌%◌, ◌^◌, ◌≤◌, ◌<◌, min, max}
pub use mathlib.Core.Path.{◌≡◌, refl, sym, ap, ◌∙◌, subst}
pub use mathlib.Core.Logic.{◌≢◌, ◌↔◌, ◌⊎◌, inl, inr}
pub use mathlib.Core.Bool.{Bool, true, false, not, ◌&&◌, ◌||◌}
pub use mathlib.Core.Option.{Option, none, some}
pub use mathlib.Core.List.{List, [], ◌∷◌, ◌++◌, map}
pub use native.Mathlib.Omega.{arith}
