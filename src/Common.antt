-- ===== src/Common.antt =====
-- The names that every module shares: the libraries', passed on, with Boolean tests, results of
-- Go's (value, error) pairs, and the lists and association lists that stand for slices and maps.
mod Tests
mod Results
mod Lists
mod Maps
pub use Tests.*
pub use Results.*
pub use Lists.*
unfoldable pub use Maps.{find, put, remove}
pub use Maps.{Eq, ◌=?◌, Map, find-put, find-remove, In-put, find-In}
pub use Prim.Native.Nat.{ℕ, zero, suc, ◌+◌, ◌-◌, ◌*◌, ◌/◌, ◌%◌, ◌^◌, ◌≤◌, ◌<◌}
pub use mathlib.Core.Path.{◌≡◌, refl, sym, ap, ◌∙◌, subst}
pub use mathlib.Core.Logic.{◌≢◌, ◌↔◌, ◌⊎◌, inl, inr}
pub use mathlib.Core.Bool.{Bool, true, false, not, ◌&&◌, ◌||◌}
pub use mathlib.Core.Option.{Option, none, some}
pub use mathlib.Core.List.{List, [], ◌∷◌, ◌++◌, map}
pub use native.Mathlib.Omega.{arith}
