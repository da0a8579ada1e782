-- ===== src/Common.antt =====
-- The names that all modules share: the libraries', passed on, and those of three children.
-- Machine words are native numbers; `Bits` reads `&`, `|` and `!` on them digit by digit.
mod Tests
mod Lists
mod Bits
mod Masks
mod Smear
mod Faults
mod Maps
pub use Tests.*
pub use Lists.*
unfoldable pub use Bits.*
pub use Masks.*
pub use Smear.*
pub use Faults.*
unfoldable pub use Maps.*
pub use Prim.Native.Nat.{ℕ, zero, suc, ◌+◌, ◌-◌, ◌*◌, ◌/◌, ◌%◌, ◌^◌, ◌≤◌, ◌<◌, min, max}
pub use Prim.Native.Nat.{bit_and, bit_or}
pub use mathlib.Core.Path.{◌≡◌, refl, sym, ap, ap₂, ◌∙◌}
pub use mathlib.Core.Logic.{◌≢◌, ◌↔◌, ◌⊎◌, inl, inr}
pub use mathlib.Core.Bool.{Bool, true, false, not, ◌&&◌, ◌||◌}
pub use mathlib.Core.Option.{Option, none, some}
pub use mathlib.Core.List.{List, [], ◌∷◌, ◌++◌}
pub use native.Mathlib.Omega.{arith}
