-- ===== src/Base.antt =====
-- The names that the other modules share: the libraries', passed on, and those of the children.
pub mod Tests
pub mod Lists
pub mod Dicts
pub mod Texts
pub mod Chars
pub mod Decimal
pub mod Sets
pub mod Integers
pub mod Result
pub use Tests.*
pub use Lists.*
pub use Prim.Native.Nat.{ℕ, zero, suc, ◌+◌, ◌-◌, ◌*◌, ◌/◌, ◌%◌, ◌≤◌, ◌<◌}
pub use mathlib.Core.Path.{◌≡◌, refl, sym, ap, ◌∙◌}
pub use mathlib.Core.Logic.{◌≢◌, ◌↔◌, ◌⊎◌, inl, inr, ite, if_pos, if_neg}
pub use mathlib.Core.Bool.{Bool, true, false, ◌&&◌, ◌||◌, not}
pub use mathlib.Core.Option.{Option, none, some}
pub use mathlib.Core.List.{List, [], ◌∷◌, ◌++◌}
pub use native.Mathlib.Omega.{arith}
unfoldable pub use native.Mathlib.Decide.{ℕ_discrete}
unfoldable pub use Dicts.*
unfoldable pub use Texts.*
pub use Result.{
  Error, key_error, stop_iteration, value_error, type_error, runtime_error, os_error, out_of_fuel,
  attribute_error, overflow_error, query_syntax_error,
}
pub use Result.{ok, raise, ◌>>=◌, or_raise, raise-ne-ok, ok-injective}
unfoldable pub use Chars.*
unfoldable pub use Decimal.*
