-- ===== src/Prelude.antt =====
-- The names that the other modules share: those of the libraries, passed on, and the tests,
-- the conditional and the bit fields of the children.
mod Tests
mod Words
mod Arrays
mod Modular
mod Bits
mod Store
pub use Tests.*
pub use Words.*
pub use Arrays.*
pub use Modular.*
unfoldable pub use Bits.*
unfoldable pub use Store.*
pub use Prim.Native.Nat.{ℕ, zero, suc, ◌+◌, ◌-◌, ◌*◌, ◌/◌, ◌%◌, ◌^◌, ◌≤◌, ◌<◌}
pub use mathlib.Core.Path.{◌≡◌, refl, sym, ap, ◌∙◌}
pub use mathlib.Core.Logic.{◌≢◌, ◌↔◌, ◌⊎◌, inl, inr}
pub use mathlib.Core.Bool.{Bool, true, false, ◌&&◌, ◌||◌, not}
pub use mathlib.Core.Option.{Option, none, some}
pub use mathlib.Core.List.{List, [], ◌∷◌, ◌++◌, map}
pub use native.Mathlib.Omega.{arith}
