-- ===== src/Prelude.antt =====
-- Names that every module of the development shares: library names passed on, Boolean tests,
-- lists indexed by native numbers, the outcome of fallible code and checked machine arithmetic.
mod Tests
mod Lists
pub mod Outcome
pub mod Checked
pub mod Bytes
pub mod Readers
pub mod Text
pub mod Words
pub mod Scale
pub mod Int
pub use Tests.*
pub use Lists.*
pub use Prim.Native.Nat.{ℕ, zero, suc, ◌+◌, ◌-◌, ◌*◌, ◌/◌, ◌%◌, ◌^◌, ◌≤◌, ◌<◌, min, max}
pub use Prim.Native.String.{String}
pub use mathlib.Core.Path.{◌≡◌, refl, sym, ap, ◌∙◌}
pub use mathlib.Core.Logic.{◌≢◌, ◌↔◌, ◌⊎◌, inl, inr}
pub use mathlib.Core.Bool.{Bool, true, false, not, ◌&&◌, ◌||◌}
pub use mathlib.Core.Option.{Option, none, some}
pub use mathlib.Core.List.{List, [], ◌∷◌, ◌++◌}
pub use native.Mathlib.Omega.{arith}
