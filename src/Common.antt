-- ===== src/Common.antt =====
-- The names that the other modules share: the libraries' passed on, Boolean tests and an equality
-- interface, lists measured by native numbers, and JavaScript's records keyed by strings.
mod Tests
mod Lists
mod Records
mod Int
pub use Tests.*
pub use Lists.*
unfoldable pub use Int.*
unfoldable pub use Records.*
pub use Prim.Native.Nat.{ℕ, zero, suc, ◌+◌, ◌-◌, ◌*◌, ◌/◌, ◌≤◌, ◌<◌, min, max}
pub use Prim.Native.String.{String}
pub use mathlib.Core.Path.{◌≡◌, refl, sym, ap, subst, ◌∙◌}
pub use mathlib.Core.Logic.{◌≢◌, ◌↔◌, ◌⊎◌, inl, inr}
pub use mathlib.Core.Bool.{Bool, true, false, not, ◌&&◌, ◌||◌}
pub use mathlib.Core.Option.{Option, none, some}
pub use mathlib.Core.List.{List, [], ◌∷◌, ◌++◌, map, append-nil, append_assoc}
pub use native.Mathlib.Omega.{arith}
