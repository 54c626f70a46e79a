-- ===== src/Prelude.antt =====
-- Names that every module shares: the libraries', passed on, Boolean tests and the conditional,
-- lists measured by native numbers, and saturating machine arithmetic.
mod Tests
mod Lists
mod Words
mod Positions
mod ByteStrings
mod Floats
pub use Tests.*
unfoldable pub use Lists.*
pub use Words.*
pub use Positions.*
unfoldable pub use ByteStrings.*
pub use Floats.*
pub use Prim.Native.Nat.{ℕ, zero, suc, ◌+◌, ◌-◌, ◌*◌, ◌/◌, ◌%◌, ◌^◌, ◌≤◌, ◌<◌, min, max}
pub use mathlib.Core.Path.{◌≡◌, refl, sym, ap, ◌∙◌}
pub use mathlib.Core.Logic.{◌≢◌, ◌↔◌, ◌⊎◌, inl, inr}
pub use mathlib.Core.Bool.{Bool, true, false, not, ◌&&◌, ◌||◌}
pub use mathlib.Core.Option.{Option, none, some}
pub use mathlib.Core.List.{List, [], ◌∷◌, ◌++◌, map}
pub use native.Mathlib.Omega.{arith}
