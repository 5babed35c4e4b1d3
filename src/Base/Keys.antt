-- ===== src/Base/Keys.antt =====
-- A Go map with texts for keys: a list of entries, the first of a key counts.
use mathlib.Core.Path.{◌≡◌, refl}
use mathlib.Core.Option.{Option, none, some}
use mathlib.Core.List.{List, [], ◌∷◌}
use native.Mathlib.Omega.{arith}
use kilo_clustermesh_operato.Base.Tests.{if◌then◌else◌}
use kilo_clustermesh_operato.Base.Texts.{Text, str_eq, str_eq_iff}

module _ {A : Type 0} where
  unfoldable pub get_key : Text → List (Text × A) → Option A
  get_key n [] = none
  get_key n ((k, a) ∷ m) = if str_eq k n then some a else get_key n m

  -- `m[n] = a`
  unfoldable pub set_key : Text → A → List (Text × A) → List (Text × A)
  set_key n a [] = (n, a) ∷ []
  set_key n a ((k, b) ∷ m) = if str_eq k n then (n, a) ∷ m else (k, b) ∷ set_key n a m

  pub get_key-set_key :
      (n k : Text) (a : A) (m : List (Text × A))
      → get_key k (set_key n a m) ≡ (if str_eq n k then some a else get_key k m)
  unfolding get_key set_key
  get_key-set_key n k a [] = refl
  get_key-set_key n k a ((j, b) ∷ m) =
      ground (arith, str_eq_iff j n, str_eq_iff n k, str_eq_iff j k, get_key-set_key n k a m)
