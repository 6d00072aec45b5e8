-- ===== src/Prelude.antt =====
-- Names that all modules share: the libraries', passed on, and the helpers of the children, for
-- code under apps/ and packages/ alike.
mod Tests
mod Lists
mod Appends
mod Sorting
mod Numbers
mod Texts
mod Maps
mod Decimals
mod Doubles
pub use Tests.*
pub use Lists.*
pub use Appends.*
unfoldable pub use Texts.*
unfoldable pub use Maps.*
unfoldable pub use Decimals.*
unfoldable pub use Doubles.*
unfoldable pub use Sorting.*
pub use Numbers.{Number, not_a_number, infinity, negative_infinity, negative, natural}
pub use Prim.Native.String.{String}
pub use Prim.Native.Nat.{ℕ, zero, suc, ◌+◌, ◌-◌, ◌*◌, ◌/◌, ◌%◌, ◌^◌, ◌≤◌, ◌<◌, min, max}
pub use mathlib.Core.Path.{◌≡◌, refl, sym, ap, subst, ◌∙◌}
pub use mathlib.Core.Logic.{◌≢◌, ◌↔◌, ◌⊎◌, inl, inr}
pub use mathlib.Core.Bool.{Bool, true, false, not, ◌&&◌, ◌||◌}
pub use mathlib.Core.Option.{Option, none, some}
pub use mathlib.Core.List.{List, [], ◌∷◌, ◌++◌, map}
pub use native.Mathlib.Omega.{arith}
