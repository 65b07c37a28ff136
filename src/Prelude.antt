-- ===== src/Prelude.antt =====
-- The names that the components share: the libraries', passed on, and those of the children.
pub mod Tests
pub mod Lists
pub mod Table
pub mod Bytes
pub mod Text
pub mod Int
pub mod Results
pub mod Sql
pub use Prim.Native.Nat.{ℕ, zero, suc, ◌+◌, ◌-◌, ◌≤◌, ◌<◌}
pub use Prim.Native.String.{String, len}
pub use mathlib.Core.Path.{◌≡◌, refl, sym, ap, subst, subst₂, ◌∙◌}
pub use mathlib.Core.Logic.{◌≢◌, ◌↔◌, ◌⊎◌, inl, inr}
pub use mathlib.Core.Bool.{Bool, true, false, not, ◌&&◌, ◌||◌}
pub use mathlib.Core.Option.{Option, none, some}
pub use mathlib.Core.List.{List, [], ◌∷◌, ◌++◌, map}
pub use native.Mathlib.Omega.{arith}
