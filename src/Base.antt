-- ===== src/Base.antt =====
-- The names that the modules of this library share: those of the libraries, passed on, Boolean
-- tests and native lists, queues of distinct numbers, and stores of numbered cells.
mod Tests
mod Lists
mod Queues
mod Stores
mod Modulo
mod Bits
pub use Tests.*
pub use Lists.*
pub use Queues.*
pub use Stores.*
pub use Modulo.*
pub use Bits.*
pub use Prim.Native.Nat.{ℕ, zero, suc, ◌+◌, ◌-◌, ◌*◌, ◌/◌, ◌%◌, ◌^◌, ◌≤◌, ◌<◌, min, max}
pub use mathlib.Core.Path.{◌≡◌, refl, sym, ap, ap₂, subst, ◌∙◌, fun_ext}
pub use mathlib.Core.Logic.{◌≢◌, ◌↔◌, ◌⊎◌, inl, inr}
pub use mathlib.Core.Bool.{Bool, true, false, not, ◌&&◌, ◌||◌}
pub use mathlib.Core.Option.{Option, none, some}
pub use mathlib.Core.List.{List, [], ◌∷◌, ◌++◌, map}
pub use native.Mathlib.Omega.{arith}
