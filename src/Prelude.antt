-- ===== src/Prelude.antt =====
-- What the other modules share: names of the libraries passed on, and the children's.
pub mod Tests
pub mod Lists
pub mod Results
pub mod Bytes
pub mod Words
pub mod Indexing
pub use Tests.*
pub use Lists.*
pub use Results.*
unfoldable pub use Bytes.*
unfoldable pub use Words.*
pub use Indexing.*
pub use Prim.Native.Nat.{ℕ, zero, suc, ◌+◌, ◌-◌, ◌*◌, ◌/◌, ◌%◌, ◌^◌, ◌≤◌, ◌<◌, min, max}
pub use mathlib.Core.Path.{◌≡◌, refl, sym, ap, subst, ◌∙◌}
pub use mathlib.Core.Logic.{◌≢◌, ◌↔◌, ◌⊎◌, inl, inr}
pub use mathlib.Core.Bool.{Bool, true, false, ◌&&◌, ◌||◌, not}
pub use mathlib.Core.Option.{Option, none, some}
pub use mathlib.Core.List.{List, [], ◌∷◌, ◌++◌, map, append-nil, append_assoc}
pub use native.Mathlib.Omega.{arith}
