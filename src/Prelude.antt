-- ===== src/Prelude.antt =====
-- The names that every other module shares: those of the libraries, passed on, and those of the
-- children, which hold the Boolean tests, the lists, the texts, the values of `unknown` bodies and
-- the results of code that may throw.
mod Tests
mod Lists
mod Texts
pub mod Spaces
pub mod Int
pub mod Json
pub mod Result
pub use Tests.*
pub use Lists.*
pub use Texts.{Str, code_units, eq-text, eq-text_refl, eq-text_sym, eq-text-true, eq-text-ne}
unfoldable pub use Texts.{◌===◌}
pub use Prim.Native.Nat.{ℕ, zero, suc, ◌+◌, ◌-◌, ◌*◌, ◌/◌, ◌%◌, ◌^◌, ◌≤◌, ◌<◌}
pub use mathlib.Core.Path.{◌≡◌, refl, sym, ap, ap₂, ◌∙◌, subst}
pub use mathlib.Core.Logic.{◌≢◌, ◌↔◌, ◌⊎◌, inl, inr}
pub use mathlib.Core.Bool.{Bool, true, false, not, ◌&&◌, ◌||◌}
pub use mathlib.Core.Option.{Option, none, some}
pub use mathlib.Core.List.{List, [], ◌∷◌, ◌++◌, map}
pub use native.Mathlib.Omega.{arith}
