-- ===== src/Base.antt =====
-- Names that every other module uses: the libraries' names passed on, Boolean tests on the native
-- numbers, and the lemmas on lists, texts and association lists of the child modules.
mod Tests
mod Lists
mod Texts
mod Keys
mod Sorted
pub mod Result
pub use Tests.*
pub use Lists.*
unfoldable pub use Texts.*
unfoldable pub use Keys.*
pub use Sorted.*
pub use Prim.Native.Nat.{ℕ, zero, suc, ◌+◌, ◌-◌, ◌*◌, ◌/◌, ◌%◌, ◌^◌, ◌≤◌, ◌<◌}
pub use Prim.Native.String.{String}
pub use mathlib.Core.Path.{◌≡◌, refl, sym, ap, ◌∙◌, subst}
pub use mathlib.Core.Logic.{◌≢◌, ◌↔◌, ◌⊎◌, inl, inr}
pub use mathlib.Core.Bool.{Bool, true, false, not, ◌&&◌, ◌||◌}
pub use mathlib.Core.Option.{Option, none, some}
pub use mathlib.Core.List.{List, [], ◌∷◌, ◌++◌, map, append_assoc, append-nil, reverse}
pub use native.Mathlib.Omega.{arith}
