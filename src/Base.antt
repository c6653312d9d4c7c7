-- ===== src/Base.antt =====
-- What the modules share: the libraries' names passed on, tests, lists, Go maps and results.
mod Tests
mod Lists
mod GoMap
pub mod Order
pub mod Int
pub mod Int64
pub mod Result
pub mod Atoi
pub use Prim.Native.Nat.{ℕ, zero, suc, ◌+◌, ◌-◌, ◌*◌, ◌/◌, ◌%◌, ◌^◌, ◌≤◌, ◌<◌}
pub use Prim.Native.String.{String}
pub use mathlib.Core.Path.{◌≡◌, refl, sym, ap, ◌∙◌, subst}
pub use mathlib.Core.Logic.{◌≢◌, ◌↔◌, ◌⊎◌, inl, inr}
pub use mathlib.Core.Bool.{Bool, true, false, not, ◌&&◌, ◌||◌}
pub use mathlib.Core.Option.{Option, none, some}
pub use mathlib.Core.List.{List, [], ◌∷◌, ◌++◌, map}
pub use native.Mathlib.Omega.{arith}
pub use Tests.{
  ltb, leb, ◌==◌, if◌then◌else◌, str_eq_iff, str_eq_refl, Bool-cases, Option-cases, ltb→lt, leb→le,
}
pub use Lists.{
  length, get_elem?, set, length-append, get_elem?-append_last, All, All-append, All-get_elem?,
  count-append, contains-append, get_elem?-set_self, get_elem?-set_ne, get_elem?-append_left,
}
pub use GoMap.{Map, lookup-insert, lookup-delete, lookup-insert_self}
unfoldable pub use Tests.{str_eq}
unfoldable pub use Lists.{contains, count}
unfoldable pub use GoMap.{lookup, insert, delete, keys}
