-- ===== src/Base.antt =====
-- The names that the other modules share.
mod Equality
pub mod Faults
pub mod Loops
pub mod Int
pub mod Text
pub mod Padding
pub mod Sets
pub mod Pigeonhole
pub mod Mapping
pub mod Occurs
pub mod Growth
pub mod Sorting
pub mod Decimal
pub mod Increasing
pub use Faults.*
unfoldable pub use Equality.*
unfoldable pub use Loops.*
unfoldable pub use Sets.*
unfoldable pub use Mapping.*
unfoldable pub use Int.*
pub use Prim.Native.Nat.{ℕ, zero, suc, ◌+◌, ◌-◌, ◌*◌, ◌/◌, ◌%◌, ◌^◌, ◌≤◌, ◌<◌}
pub use Prim.Native.String.{String, ◌++◌ as ◌<>◌}
pub use mathlib.Core.Path.{◌≡◌, refl, sym, ap, ◌∙◌, subst}
pub use mathlib.Core.Logic.{◌≢◌, ◌↔◌, ◌⊎◌, inl, inr, ite, dite}
pub use mathlib.Core.Bool.{Bool, true, false, not, ◌&&◌, ◌||◌}
pub use mathlib.Core.Option.{Option, none, some}
pub use mathlib.Core.List.{List, [], ◌∷◌, ◌++◌, map}
pub use native.Mathlib.Omega.{arith}
pub use text.Mathlib.Text.{starts_with}
pub use Pigeonhole.{NodupList-length}
