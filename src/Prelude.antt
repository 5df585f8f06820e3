-- ===== src/Prelude.antt =====
-- Names that the components share: the libraries', passed on, Boolean tests on the native numbers,
-- lists measured by them, and the errors-or-value type of the stateful code.
mod Tests
mod Lists
mod Stores
mod Outcome
mod Texts
pub use Tests.*
pub use Lists.*
pub use Outcome.*
pub use Stores.*
pub use Texts.*
pub use Prim.Native.String.{String}
pub use text.Mathlib.TextEquality.{eq_iff}
pub use Prim.Native.Nat.{ℕ, zero, suc, ◌+◌, ◌-◌, ◌*◌, ◌/◌, ◌%◌, ◌^◌, ◌≤◌, ◌<◌, bit_xor, bit_or}
pub use mathlib.Core.Path.{◌≡◌, refl, sym, ap, ◌∙◌}
pub use mathlib.Core.Logic.{◌≢◌, ◌↔◌, ◌⊎◌, inl, inr}
pub use mathlib.Core.Bool.{Bool, true, false, ◌&&◌, ◌||◌, not}
pub use mathlib.Core.Option.{Option, none, some}
pub use mathlib.Core.List.{List, [], ◌∷◌, ◌++◌, map}
pub use native.Mathlib.Omega.{arith}
