-- ===== src/Base.antt =====
-- The names that all modules share: those of the libraries, and the helpers of the children.
mod Tests
mod Lists
mod Results
mod Sets
mod Sort
mod Texts
mod Schema
mod Numerals
mod Maps
pub use Tests.*
pub use Lists.*
unfoldable pub use Results.*
pub use Sets.*
pub use Sort.*
unfoldable pub use Texts.*
unfoldable pub use Schema.*
unfoldable pub use Numerals.*
unfoldable pub use Maps.*
pub use Prim.Native.Nat.{ℕ, zero, suc, ◌+◌, ◌-◌, ◌*◌, ◌/◌, ◌%◌, ◌^◌, ◌≤◌, ◌<◌}
pub use mathlib.Core.Path.{◌≡◌, refl, sym, ap, ◌∙◌}
pub use mathlib.Core.Logic.{◌≢◌, ◌↔◌, ◌⊎◌, inl, inr}
pub use mathlib.Core.Bool.{Bool, true, false, ◌&&◌, ◌||◌, not}
pub use mathlib.Core.Option.{Option, none, some}
pub use mathlib.Core.List.{List, [], ◌∷◌, ◌++◌, map}
pub use native.Mathlib.Omega.{arith}
