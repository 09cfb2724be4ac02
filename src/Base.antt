-- ===== src/Base.antt =====
-- The names that the modules of the library share: those of the libraries, passed on, and those of
-- the children.
mod Tests
mod Lists
mod Text
mod Throwing
pub mod Maps
pub mod Pairs
mod Decimal
mod Search
mod Stoi
pub use Tests.*
pub use Lists.*
unfoldable pub use Text.*
pub use Throwing.*
unfoldable pub use Search.*
unfoldable pub use Stoi.*
unfoldable pub use Decimal.*
pub use Prim.Native.Nat.{ℕ, zero, suc, ◌+◌, ◌-◌, ◌*◌, ◌/◌, ◌%◌, ◌^◌, ◌≤◌, ◌<◌, min}
pub use mathlib.Core.Path.{◌≡◌, refl, sym, ap, ap₂, ◌∙◌, subst, subst₂}
pub use mathlib.Core.Logic.{◌≢◌, ◌↔◌, ◌⊎◌, inl, inr}
pub use mathlib.Core.Bool.{Bool, true, false, not, ◌&&◌, ◌||◌}
pub use mathlib.Core.Option.{Option, none, some}
pub use mathlib.Core.List.{List, [], ◌∷◌, ◌++◌, map, append-nil, append_assoc}
pub use native.Mathlib.Omega.{arith}
