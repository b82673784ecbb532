-- ===== src/Shared.antt =====
-- Names that every component uses: the libraries' names passed on, and the helpers of the children.
mod Tests
mod Lists
pub mod Text
pub mod Member
pub mod Int64
pub mod Sorting
pub mod Lexical
pub mod Panics
pub mod Format
pub mod Scan
pub mod Float
pub use Tests.*
pub use Lists.*
pub use Text.*
pub use Member.*
pub use Prim.Native.Nat.{ℕ, zero, suc, ◌+◌, ◌-◌, ◌*◌, ◌/◌, ◌%◌, ◌^◌, ◌≤◌, ◌<◌}
pub use Prim.Native.String.{String}
pub use mathlib.Core.Path.{◌≡◌, refl, sym, ap, ◌∙◌}
pub use mathlib.Core.Logic.{◌≢◌, ◌↔◌, ◌⊎◌, inl, inr}
pub use mathlib.Core.Bool.{Bool, true, false, not, ◌&&◌, ◌||◌}
pub use mathlib.Core.Option.{Option, none, some}
pub use mathlib.Core.List.{List, [], ◌∷◌, ◌++◌, map}
pub use native.Mathlib.Omega.{arith}
