-- ===== src/Base.antt =====
-- What the other modules share: names of the libraries, passed on, and the children's helpers for
-- C tests, arrays, machine words and the bit operators.
mod Tests
mod Lists
mod Word
mod Asserts
mod Int
mod Finite
pub mod Bits
pub use Tests.*
pub use Lists.*
pub use Word.*
pub use Asserts.*
pub use Int.*
pub use Finite.*
pub use Prim.Native.Nat.{
  ℕ, zero, suc, ◌+◌, ◌-◌, ◌*◌, ◌/◌, ◌%◌, ◌^◌, ◌≤◌, ◌<◌, min, max, bit_and, bit_or, bit_xor,
}
pub use mathlib.Core.Path.{◌≡◌, refl, sym, ap, ap₂, ◌∙◌}
pub use mathlib.Core.Logic.{◌≢◌, ◌↔◌, ◌⊎◌, inl, inr}
pub use mathlib.Core.Bool.{Bool, true, false, not, ◌&&◌, ◌||◌}
pub use mathlib.Core.Option.{Option, none, some}
pub use mathlib.Core.List.{List, [], ◌∷◌, ◌++◌, map, append-nil, append_assoc}
pub use native.Mathlib.Omega.{arith}
