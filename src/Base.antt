-- ===== src/Base.antt =====
-- Names that every other file uses: those of the libraries, passed on, and the helpers of the
-- child modules on tests, lists, machine words and orders.
mod Tests
mod Lists
mod Words
mod Orders
mod Int
pub use Tests.*
pub use Lists.*
pub use Words.*
unfoldable pub use Orders.{lex}
pub use Orders.*
unfoldable pub use Int.{◌+ℤ◌, ◌-ℤ◌}
pub use Int.*
pub use Prim.Native.Nat.{
  ℕ, zero, suc, ◌+◌, ◌-◌, ◌*◌, ◌/◌, ◌%◌, ◌^◌, ◌≤◌, ◌<◌, max, min, compare, Ordering,
}
pub use mathlib.Core.Path.{◌≡◌, refl, sym, ap, ap₂, ◌∙◌, subst}
pub use mathlib.Core.Logic.{◌≢◌, ◌↔◌, ◌⊎◌, inl, inr}
pub use mathlib.Core.Bool.{Bool, true, false, ◌&&◌, ◌||◌, not}
pub use mathlib.Core.Option.{Option, none, some}
pub use mathlib.Core.List.{List, [], ◌∷◌, ◌++◌, map, reverse}
pub use native.Mathlib.Omega.{arith}
unfoldable pub use native.Mathlib.Decide.{dec_lt, ℕ_discrete}
