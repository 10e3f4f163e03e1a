-- ===== src/Common.antt =====
-- The names that the other modules share: the libraries', passed on, and those of the children.
pub mod Tests
pub mod Lists
pub mod Errors
pub mod Text
pub mod Key
pub mod Table
pub use Tests.{
  ltb, leb, ◌==◌, if◌then◌else◌, not, Bool-cases, Option-cases, if-cases, unwrap_or, is_some,
  is_none,
}
pub use Tests.{==_iff, ltb→lt, ltb→le, leb→le, leb→lt, lt→ltb, le→leb}
pub use Lists.{length, All, sum, Has, Has-All, AreDistinct, take, drop, get_or}
unfoldable pub use Lists.{any, all}
pub use Errors.{Result, ok, err, ◌>>=◌, ok_or, map_err, bind-eq-ok, map_err-eq-ok, Result-cases}
pub use Prim.Native.Nat.{ℕ, zero, suc, ◌+◌, ◌-◌, ◌*◌, ◌/◌, ◌%◌, ◌^◌, ◌≤◌, ◌<◌}
pub use mathlib.Core.Path.{◌≡◌, refl, sym, ap, ◌∙◌}
pub use mathlib.Core.Logic.{◌≢◌, ◌↔◌, ◌⊎◌, inl, inr}
pub use mathlib.Core.Bool.{Bool, true, false, ◌&&◌, ◌||◌}
pub use mathlib.Core.Option.{Option, none, some}
pub use mathlib.Core.List.{List, [], ◌∷◌, ◌++◌, map}
pub use native.Mathlib.Omega.{arith}
