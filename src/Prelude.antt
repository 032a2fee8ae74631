-- ===== src/Prelude.antt =====
-- What the other modules share: library names passed on, Boolean tests on numbers, list helpers
-- over the native numbers, and laws of powers of two.
mod Tests
mod Lists
mod Powers
mod Sorting
mod Int
pub mod Result
pub use Tests.*
pub use Lists.*
pub use Powers.*
pub use Sorting.*
unfoldable pub use Sorting.{sort_by, insert_by}
pub use Int.*
pub use Prim.Native.Nat.{ℕ, zero, suc, ◌+◌, ◌-◌, ◌*◌, ◌/◌, ◌%◌, ◌^◌, ◌≤◌, ◌<◌}
pub use Prim.Native.String.{String}
pub use mathlib.Core.Path.{◌≡◌, refl, sym, ap, ◌∙◌}
pub use mathlib.Core.Logic.{◌≢◌, ◌↔◌, ◌⊎◌, inl, inr}
pub use mathlib.Core.Bool.{Bool, true≢false, true, false, not, ◌&&◌, ◌||◌}
pub use mathlib.Core.Option.{Option, none, some}
pub use mathlib.Core.List.{List, [], ◌∷◌, ◌++◌, map}
pub use native.Mathlib.Omega.{arith}
pub use text.Mathlib.Text.{◌==◌ as str_eq}
pub use text.Mathlib.TextEquality.{eq_iff}
