-- ===== src/Base.antt =====
-- The names that the other modules share: those of the libraries, and those of the modules below.
mod Tests
mod Lists
mod Int
mod Effects
mod Traces
mod History
mod Cost
pub mod Bits
pub mod Count
pub mod Merges
pub use Tests.*
pub use Lists.*
pub use Int.*
unfoldable pub use Effects.*
pub use Traces.*
pub use History.*
pub use Cost.*
pub use Prim.Native.Nat.{ℕ, zero, suc, ◌+◌, ◌-◌, ◌*◌, ◌/◌, ◌%◌, ◌^◌, ◌≤◌, ◌<◌}
pub use mathlib.Core.Path.{◌≡◌, refl, sym, ap, ◌∙◌}
pub use mathlib.Core.Logic.{◌≢◌, ◌↔◌, ◌⊎◌, inl, inr}
pub use mathlib.Core.Bool.{Bool, true, false, not, ◌&&◌, ◌||◌}
pub use mathlib.Core.Option.{Option, none, some}
pub use mathlib.Core.List.{List, [], ◌∷◌, ◌++◌, append-nil, append_assoc, Perm}
pub use native.Mathlib.Omega.{arith}
