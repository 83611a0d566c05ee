-- ===== src/Base.antt =====
-- The names that the other modules share: the libraries', passed on, and those of the children.
-- `Tests` holds the comparisons and the conditional, `Lists` lists with native indices,
-- `Equality` the interface `Eq` of JavaScript's `===` on keys, `Dict` JavaScript objects used as
-- maps, `Sets` JavaScript's `Set`.
mod Tests
mod Lists
mod Equality
mod Dict
pub mod Sets
pub mod Float
pub mod Newest
pub mod Sorting
pub mod Decimal
pub use Tests.*
pub use Lists.*
pub use Equality.*
unfoldable pub use Dict.{get, put, remove, keys}
pub use Dict.{All-put, All-get, get-put, get-remove, get-append, put-ne-nil}
pub use Prim.Native.Nat.{ℕ, zero, suc, ◌+◌, ◌-◌, ◌*◌, ◌/◌, ◌%◌, ◌≤◌, ◌<◌, max, min}
pub use mathlib.Core.Path.{◌≡◌, refl, sym, ap, ◌∙◌, subst}
pub use mathlib.Core.Logic.{◌≢◌, ◌↔◌, ◌⊎◌, inl, inr, ⊎_elim}
pub use mathlib.Core.Bool.{Bool, true, false, not, ◌&&◌, ◌||◌}
pub use mathlib.Core.Option.{Option, none, some}
pub use mathlib.Core.List.{List, [], ◌∷◌, ◌++◌, map, Memᴰ}
pub use native.Mathlib.Omega.{arith}
