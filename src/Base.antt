-- ===== src/Base.antt =====
-- Names that every module shares: the libraries', passed on, and the small children below.
mod Tests
mod Lists
mod Pointers
pub mod Bits
pub mod Int
pub mod Threads
pub mod Loops
pub mod Totals
pub mod Alone
pub mod Options
pub use Tests.*
pub use Lists.*
unfoldable pub use Pointers.*
pub use Prim.Native.Nat.{ℕ, zero, suc, ◌+◌, ◌-◌, ◌*◌, ◌/◌, ◌%◌, ◌^◌, ◌≤◌, ◌<◌}
pub use mathlib.Core.Path.{◌≡◌, refl, sym, ap, ◌∙◌}
pub use mathlib.Core.Logic.{◌≢◌, ◌↔◌, ◌⊎◌, inl, inr}
pub use mathlib.Core.Bool.{Bool, true, false, not, ◌&&◌, ◌||◌}
pub use mathlib.Core.Option.{Option, none, some}
pub use mathlib.Core.List.{List, [], ◌∷◌, ◌++◌, map}
pub use native.Mathlib.Omega.{arith}
