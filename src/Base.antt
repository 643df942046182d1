-- ===== src/Base.antt =====
-- The names that the modules of this library share: those of the standard libraries, and four
-- children with Boolean tests, native-number lists, bit operations and bitmaps.
mod Tests
mod Lists
mod Bits
mod Bitmap
pub use Tests.*
pub use Lists.*
pub use Bits.*
pub use Bitmap.*
unfoldable pub use Bits.{passes_below}
pub use Prim.Native.Nat.{
  ℕ, zero, suc, ◌+◌, ◌-◌, ◌*◌, ◌/◌, ◌%◌, ◌^◌, ◌≤◌, ◌<◌, min, max, bit_and, bit_or,
}
pub use mathlib.Core.Path.{◌≡◌, refl, sym, ap, ◌∙◌, fun_ext, subst, ap₂}
pub use mathlib.Core.Logic.{◌≢◌, ◌↔◌, ◌⊎◌, inl, inr}
pub use mathlib.Core.Bool.{Bool, true, false, not, ◌&&◌, ◌||◌}
pub use mathlib.Core.Option.{Option, none, some}
pub use mathlib.Core.List.{List, [], ◌∷◌, ◌++◌, map, reverse}
pub use native.Mathlib.Omega.{arith}
