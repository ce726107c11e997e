-- ===== src/Base.antt =====
-- Names that the other modules share: the library's, passed on, and those of the children.
mod Tests
mod Lists
mod Maps
mod Text
mod Trim
mod Order
mod Int
pub use Tests.*
pub use Lists.*
unfoldable pub use Maps.*
unfoldable pub use Text.*
pub use Int.*
unfoldable pub use Order.{newest_by}
pub use Order.{newest_by-In, newest_by-IsNewest, IsNewest, select-In}
pub use Trim.{is_empty-len, trim_right-plain, trim_space_idem}
pub use Prim.Native.Nat.{ℕ, zero, suc, ◌+◌, ◌-◌, ◌*◌, ◌/◌, ◌%◌, ◌^◌, ◌≤◌, ◌<◌, min}
pub use Prim.Native.String.{String, len, count}
pub use mathlib.Core.Path.{◌≡◌, refl, sym, ap, ◌∙◌}
pub use mathlib.Core.Logic.{◌≢◌, ◌↔◌, ◌⊎◌, inl, inr}
pub use mathlib.Core.Bool.{Bool, true, false, not, ◌&&◌, ◌||◌}
pub use mathlib.Core.Option.{Option, none, some}
pub use mathlib.Core.List.{List, [], ◌∷◌, ◌++◌, map}
pub use native.Mathlib.Omega.{arith}
pub use text.Mathlib.TextEquality.{eq_iff}
