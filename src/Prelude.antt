-- ===== src/Prelude.antt =====
-- The names that all other modules share: those of the libraries, passed on, and those of the
-- children (tests on numbers, and the rows of a table).
mod Tests
mod Rows
mod RowLaws
mod Least
pub use Tests.*
unfoldable pub use Rows.*
pub use RowLaws.*
pub use Least.*
pub use Prim.Native.Nat.{ℕ, zero, suc, ◌+◌, ◌-◌, ◌*◌, ◌/◌, ◌%◌, ◌≤◌, ◌<◌}
pub use Prim.Native.String.{String}
pub use mathlib.Core.Path.{◌≡◌, refl, sym, ap, subst, ◌∙◌}
pub use mathlib.Core.Logic.{◌≢◌, ◌⊎◌, inl, inr}
pub use mathlib.Core.Bool.{Bool, true, false, not, ◌&&◌, ◌||◌}
pub use mathlib.Core.Option.{Option, none, some}
pub use mathlib.Core.List.{List, [], ◌∷◌, ◌++◌, map}
pub use native.Mathlib.Omega.{arith}
