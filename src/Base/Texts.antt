-- ===== src/Base/Texts.antt =====
-- A Go string that the program walks or orders is the list of its code points. For valid UTF-8 the
-- order of the code points is the order of the bytes.
use Prim.Native.Char.{code}
use Prim.Native.String.{String}
use Prim.Native.Nat.{ℕ}
use mathlib.Core.Path.{◌≡◌, refl}
use mathlib.Core.Logic.{◌≢◌, ◌↔◌, inl, inr}
use mathlib.Core.Bool.{Bool, true, false, ◌&&◌, ◌||◌}
use mathlib.Core.Option.{Option, none, some}
use mathlib.Core.List.{List, [], ◌∷◌}
use native.Mathlib.Omega.{arith}
use text.Mathlib.Text.{◌==◌ as key_eq}
use kilo_clustermesh_operato.Base.Lists.{any, In}
use kilo_clustermesh_operato.Base.Tests.{Bool-cases, ltb, ◌==◌, if◌then◌else◌}

abbrev pub Text : Type 0
Text = List ℕ

-- A string literal as a text.
abbrev pub codes : String → Text
codes String.[] = []
codes (String.◌∷◌ c s) = code c ∷ codes s

unfoldable pub str_eq : Text → Text → Bool
str_eq [] [] = true
str_eq [] (d ∷ t) = false
str_eq (c ∷ s) [] = false
str_eq (c ∷ s) (d ∷ t) = c == d && str_eq s t

pub str_eq_iff : (s t : Text) → (str_eq s t ≡ true) ↔ (s ≡ t)
unfolding str_eq
str_eq_iff [] [] = ground arith
str_eq_iff [] (d ∷ t) = ground arith
str_eq_iff (c ∷ s) [] = ground arith
str_eq_iff (c ∷ s) (d ∷ t) = ground (arith, str_eq_iff s t)

pub str_eq_refl : (s : Text) → str_eq s s ≡ true
str_eq_refl s = (str_eq_iff s s).1 refl

-- Go's `<` on strings.
unfoldable pub str_lt : Text → Text → Bool
str_lt s [] = false
str_lt [] (d ∷ t) = true
str_lt (c ∷ s) (d ∷ t) = ltb c d || (c == d && str_lt s t)

-- `m[k]` of a Go map of strings with literal keys, `none` when the key is missing.
unfoldable pub lookup : String → List (String × Text) → Option Text
lookup k [] = none
lookup k ((j, v) ∷ m) = if key_eq j k then some v else lookup k m

-- `m[k]` used as a value: a missing key reads as the empty string.
unfoldable pub value_at : String → List (String × Text) → Text
value_at k m = elim (lookup k m) [ none ↦ [] | some v ↦ v ]

pub ne_of_str_eq-false : (a b : Text) → str_eq a b ≡ false → a ≢ b
ne_of_str_eq-false a b h e = cc ((str_eq_iff a b).1 e)

-- A set in the program is a list that a text is looked up in.
pub any-str_eq_iff : (x : Text) (xs : List Text) → (any (str_eq x) xs ≡ true) ↔ In x xs
any-str_eq_iff x [] = (λ e. cc, λ i. absurd i)
any-str_eq_iff x (y ∷ ys) = (
  λ e. elim (Bool-cases (str_eq x y)) [
    | inl h ↦ inl ((str_eq_iff x y).0 h)
    | inr h ↦ inr ((any-str_eq_iff x ys).0 (rw h at e))
  ],
  λ i. elim i [
    | inl same ↦ rw ((str_eq_iff x y).1 same)
    | inr j ↦ ground (arith, (any-str_eq_iff x ys).1 j)
  ],
)
