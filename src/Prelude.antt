-- ===== src/Prelude.antt =====
-- The names that the components share: the libraries', passed on, Boolean tests and lists over the
-- native numbers, the machine words of the kernel (`usize` is 64 bits wide on riscv64), and its
-- two ways to fail, a `Result` and a panic.
mod Tests
mod Lists
mod Words
mod Fail
pub mod Bits
pub mod Maps
pub mod Text
pub use Tests.*
pub use Lists.*
pub use Words.*
pub use Fail.*
pub use Prim.Native.Nat.{
  min, max, ℕ, zero, suc, ◌+◌, ◌-◌, ◌*◌, ◌/◌, ◌%◌, ◌^◌, ◌≤◌, ◌<◌, bit_and, bit_or,
}
pub use Prim.Native.String.{String}
pub use mathlib.Core.Path.{◌≡◌, refl, sym, ap, ◌∙◌}
pub use mathlib.Core.Logic.{◌≢◌, ◌↔◌, ◌⊎◌, inl, inr}
pub use mathlib.Core.Bool.{Bool, true, false, ◌&&◌, ◌||◌, not}
pub use mathlib.Core.Option.{Option, none, some}
pub use mathlib.Core.List.{List, [], ◌∷◌, ◌++◌, map}
pub use native.Mathlib.Omega.{arith}
unfoldable pub use native.Mathlib.Decide.{dec_lt, ℕ_discrete}
