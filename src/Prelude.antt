-- ===== src/Prelude.antt =====
-- The names that the other modules share.
mod Tests
mod Lists
mod Maps
mod Int
mod Text
mod Float
mod Results
pub use Tests.*
pub use Lists.*
pub use Maps.*
pub use Int.*
pub use Text.*
pub use Results.*
pub use Float.*
unfoldable pub use Maps.{lookup, insert, delete, keep_keys}
unfoldable pub use Int.{milliseconds, ◌+ℤ◌, ◌-ℤ◌, wrap64, wrap32, add64, sub64, add32, sub32}
unfoldable pub use Text.{parse_int}
pub use Prim.Native.Nat.{ℕ, zero, suc, ◌+◌, ◌-◌, ◌*◌, ◌/◌, ◌%◌, ◌≤◌, ◌<◌}
pub use Prim.Native.String.{String}
pub use mathlib.Core.Path.{◌≡◌, refl, sym, ap, subst, ◌∙◌}
pub use mathlib.Core.Logic.{◌≢◌, ◌↔◌, ◌⊎◌, inl, inr}
pub use mathlib.Core.Bool.{Bool, true, false, false≢true, not, ◌&&◌, ◌||◌}
pub use mathlib.Core.Option.{Option, none, some}
pub use mathlib.Core.List.{List, [], ◌∷◌, ◌++◌, map}
pub use native.Mathlib.Omega.{arith}
pub use text.Mathlib.Text.{◌==◌ as str_eq}
pub use text.Mathlib.TextEquality.{eq_iff}
