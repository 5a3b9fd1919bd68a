-- ===== src/Base.antt =====
-- The names that the other modules share: the libraries' names, passed on, and those of the
-- children: Boolean tests, lists, signed integers, text, and Python dictionaries.
mod Tests
mod Lists
mod Text
mod Dictionary
mod Sort
mod Names
pub mod Int
pub use Tests.*
pub use Lists.*
pub use Text.*
unfoldable pub use Text.{lower, str_leq}
unfoldable pub use Sort.{first, insert_by, sort_by}
pub use Names.*
pub use Sort.{Best, sort-Best, Among-sort, Among-sort_of}
pub use Dictionary.{Dict}
unfoldable pub use Dictionary.{get, put, pop, contains, dict_keys, dict_values}
pub use Dictionary.{
  get-put, get-pop, get-put_self, get-put_ne, get-pop_self, get-pop_ne, contains_lem, get-contains,
  IsUnique, put-IsUnique, pop-IsUnique, Among-get, get-Among,
}
pub use Prim.Native.Nat.{ℕ, zero, suc, ◌+◌, ◌-◌, ◌*◌, ◌/◌, ◌%◌, ◌^◌, ◌≤◌, ◌<◌, min, max}
pub use Prim.Native.String.{String}
pub use mathlib.Core.Path.{◌≡◌, refl, sym, ap, ◌∙◌, subst}
pub use mathlib.Core.Logic.{◌≢◌, ◌↔◌, ◌⊎◌, inl, inr}
pub use mathlib.Core.Bool.{Bool, true, false, not, ◌&&◌, ◌||◌}
pub use mathlib.Core.Option.{Option, none, some}
pub use mathlib.Core.List.{List, [], ◌∷◌, ◌++◌, map}
pub use native.Mathlib.Omega.{arith}
