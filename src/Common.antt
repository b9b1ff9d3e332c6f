-- ===== src/Common.antt =====
-- What the modules share: the libraries' names passed on, and tests, lists, byte texts, maps,
-- signed integers and exceptions.
mod Tests
mod Lists
mod ByteText
pub mod Assoc
pub mod Int
pub mod Decimal
pub mod Result
pub use Tests.*
pub use Lists.*
pub use ByteText.{Bytes, codes, bytes_eq_refl, bytes_eq_iff}
unfoldable pub use ByteText.{bytes_eq, is_empty}
pub use Prim.Native.Nat.{ℕ, zero, suc, ◌+◌, ◌-◌, ◌*◌, ◌/◌, ◌%◌, ◌^◌, ◌≤◌, ◌<◌}
pub use Prim.Native.String.{String}
pub use mathlib.Core.Path.{◌≡◌, refl, sym, ap, ◌∙◌}
pub use mathlib.Core.Logic.{◌≢◌, ◌↔◌, ◌⊎◌, inl, inr}
pub use mathlib.Core.Bool.{Bool, true, false, not, ◌&&◌, ◌||◌}
pub use mathlib.Core.Option.{Option, none, some}
pub use mathlib.Core.List.{List, [], ◌∷◌, ◌++◌, map}
pub use native.Mathlib.Omega.{arith}
