-- ===== src/Prelude.antt =====
-- The names that the other modules share: the libraries', passed on, and those of the children.
pub mod Assoc
pub mod Division
pub mod Int
mod Lists
mod Results
pub mod Table
mod Tests
pub use native.Mathlib.Omega.{arith}
pub use text.Mathlib.TextEquality.{eq_iff}
pub use text.Mathlib.Text.{◌==◌ as str_eq}
pub use Prim.Native.String.{String}
pub use mathlib.Core.List.{map, List, ◌∷◌, [], ◌++◌}
pub use mathlib.Core.Option.{some, none, Option}
pub use mathlib.Core.Bool.{◌&&◌, ◌||◌, not, Bool, false, true}
pub use mathlib.Core.Logic.{inl, inr, ◌↔◌, ◌⊎◌, ◌≢◌}
pub use mathlib.Core.Path.{sym, ap, refl, ◌∙◌, ◌≡◌}
pub use Prim.Native.Nat.{zero, suc, ℕ, ◌<◌, ◌≤◌, ◌%◌, ◌/◌, ◌^◌, ◌*◌, ◌-◌, ◌+◌}
pub use Results.*
pub use Lists.*
pub use Tests.*
