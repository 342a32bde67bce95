-- ===== src/Prelude.antt =====
-- The names that the other modules share: the libraries', passed on, and those of the children.
mod Tests
mod Int
mod Results
mod Lists
mod Order
mod Sort
mod Sets
mod Count
mod Values
mod Elements
pub use Tests.*
pub use Int.*
pub use Results.*
pub use Lists.*
pub use Order.*
pub use Sort.*
pub use Sets.*
pub use Count.*
pub use Values.*
pub use Elements.*
unfoldable pub use Sort.{insert, sorted}
unfoldable pub use Results.{each}
pub use Prim.Native.Nat.{ℕ, zero, suc, ◌+◌, ◌-◌, ◌*◌, ◌/◌, ◌%◌, ◌^◌, ◌≤◌, ◌<◌, min, max}
pub use mathlib.Core.Path.{◌≡◌, refl, sym, ap, ap₂, subst, ◌∙◌}
pub use mathlib.Core.Logic.{◌≢◌, ◌↔◌, ◌⊎◌, inl, inr}
pub use mathlib.Core.Bool.{Bool, true, false, not, ◌&&◌, ◌||◌}
pub use mathlib.Core.Option.{Option, none, some}
pub use mathlib.Core.List.{List, [], ◌∷◌, ◌++◌, map, append_assoc, append-nil}
pub use native.Mathlib.Omega.{arith}
unfoldable pub use native.Mathlib.Decide.{ℕ_discrete}
unfoldable pub use Sets.{distinct, has_duplicates, get, put, remove}
