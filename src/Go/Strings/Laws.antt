-- ===== src/Go/Strings/Laws.antt =====
-- Cutting a text at its last separator.
use kilo_clustermesh_operato.Base.{ℕ, ◌≡◌, refl, false, none, some, [], ◌∷◌, ◌++◌, Text, arith}
use kilo_clustermesh_operato.Go.Strings.{has_char, cut_last}

pub cut_last-none : (c : ℕ) (s : Text) → has_char c s ≡ false → cut_last c s ≡ none
unfolding has_char cut_last
cut_last-none c [] h = refl
cut_last-none c (d ∷ s) h = ground (arith, cut_last-none c s)

-- The last separator is the one with none behind it.
pub cut_last-append :
    (c : ℕ) (p q : Text) → has_char c q ≡ false → cut_last c (p ++ c ∷ q) ≡ some (p, q)
unfolding cut_last
cut_last-append c [] q h = ground (arith, cut_last-none c q h)
cut_last-append c (d ∷ p) q h = rw (cut_last-append c p q h)
