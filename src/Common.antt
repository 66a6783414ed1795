-- ===== src/Common.antt =====
-- The names that all modules share: the libraries', passed on, Boolean tests, list functions over
-- native numbers, and the results of a service method.
mod Tests
mod Lists
mod Results
mod Keys
mod Preservation
pub use Tests.*
pub use Lists.*
pub use Results.*
pub use Keys.*
pub use Preservation.*
pub use Prim.Native.Nat.{ℕ, zero, suc, ◌+◌, ◌-◌, ◌*◌, ◌/◌, ◌%◌, ◌^◌, ◌≤◌, ◌<◌}
pub use Prim.Native.String.{String}
pub use mathlib.Core.Path.{◌≡◌, refl, sym, ap, subst, ◌∙◌}
pub use mathlib.Core.Logic.{◌≢◌, ◌↔◌, ◌⊎◌, inl, inr}
pub use mathlib.Core.Bool.{Bool, true, false, not, ◌&&◌, ◌||◌}
pub use mathlib.Core.Option.{Option, none, some}
pub use mathlib.Core.List.{List, [], ◌∷◌, ◌++◌, map}
pub use native.Mathlib.Omega.{arith}
