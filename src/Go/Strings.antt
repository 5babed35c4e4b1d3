-- ===== src/Go/Strings.antt =====
-- Package `strings` of Go, as far as the program uses it.
pub mod Laws
use kilo_clustermesh_operato.Base.{
  ℕ, zero, suc, Bool, true, false, ◌&&◌, ◌||◌, Option, none, some, List, [], ◌∷◌, ◌++◌, ◌==◌,
  if◌then◌else◌, Text, reverse, not,
}

-- `strings.IndexByte(s, c) >= 0`
unfoldable pub has_char : ℕ → Text → Bool
has_char c [] = false
has_char c (d ∷ s) = c == d || has_char c s

-- `strings.Cut` at the first `c`.
unfoldable pub cut : ℕ → Text → Option (Text × Text)
cut c [] = none
cut c (d ∷ s) = if c == d then some ([], s) else put_before d (cut c s)
  where
    put_before : ℕ → Option (Text × Text) → Option (Text × Text)
    put_before e none = none
    put_before e (some (a, b)) = some (e ∷ a, b)

-- The text before and after the last `c`: what a program reads off `strings.LastIndex`.
unfoldable pub cut_last : ℕ → Text → Option (Text × Text)
cut_last c [] = none
cut_last c (d ∷ s) = elim (cut_last c s) [
  | some (a, b) ↦ some (d ∷ a, b)
  | none ↦ if c == d then some ([], s) else none
]

-- `strings.Split` at every `c`.
unfoldable pub split : ℕ → Text → List Text
split c [] = [] ∷ []
split c (d ∷ s) = if c == d then [] ∷ split c s else on_first d (split c s)
  where
    on_first : ℕ → List Text → List Text
    on_first e [] = (e ∷ []) ∷ []
    on_first e (p ∷ ps) = (e ∷ p) ∷ ps

-- `strings.TrimLeft` with the characters of `set` as a test.
unfoldable pub trim_left : (ℕ → Bool) → Text → Text
trim_left p [] = []
trim_left p (c ∷ s) = if p c then trim_left p s else c ∷ s

unfoldable pub trim_right : (ℕ → Bool) → Text → Text
unfolding trim_left
trim_right p s = reverse (trim_left p (reverse s))
