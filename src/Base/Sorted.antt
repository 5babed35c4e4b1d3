-- ===== src/Base/Sorted.antt =====
-- Sorted lists: the order of texts, and that the members of a list in strict order determine it.
use mathlib.Core.Path.{◌≡◌, refl, sym, ◌∙◌, ap, subst}
use mathlib.Core.Logic.{◌≢◌, ◌↔◌, inl, inr}
use mathlib.Core.Bool.{true, false}
use mathlib.Core.List.{List, [], ◌∷◌}
use native.Mathlib.Omega.{arith}
use kilo_clustermesh_operato.Base.Tests.{Bool-cases, ◌==◌}
use kilo_clustermesh_operato.Base.Lists.{In, AllPairs}
use kilo_clustermesh_operato.Base.Texts.{Text, str_lt}

pub str_lt_asym : (s t : Text) → str_lt s t ≡ true → str_lt t s ≡ false
unfolding str_lt
str_lt_asym s [] h = cc
str_lt_asym [] (d ∷ t) h = refl
str_lt_asym (c ∷ s) (d ∷ t) h = ground (arith, str_lt_asym s t)

pub str_lt_total : (s t : Text) → str_lt t s ≡ false → s ≢ t → str_lt s t ≡ true
unfolding str_lt
str_lt_total [] [] h ne = absurd (ne refl)
str_lt_total (c ∷ s) [] h ne = cc
str_lt_total [] (d ∷ t) h ne = refl
str_lt_total (c ∷ s) (d ∷ t) h ne = elim (Bool-cases (c == d)) [
  | inr apart ↦ ground arith
  | inl same ↦
      let e : c ≡ d = ground arith in
      let rest =
        str_lt_total s t (ground arith) (λ k. ne (ap (λ x. x ∷ s) e ∙ ap (λ ts. d ∷ ts) k)) in
      ground arith
]

-- "Not behind" is transitive.
pub str_lt-false_trans :
    (s t u : Text) → str_lt t s ≡ false → str_lt u t ≡ false → str_lt u s ≡ false
unfolding str_lt
str_lt-false_trans [] t [] h k = refl
str_lt-false_trans [] t (e ∷ u) h k = ground arith
str_lt-false_trans (c ∷ s) [] u h k = cc
str_lt-false_trans (c ∷ s) (d ∷ t) [] h k = cc
str_lt-false_trans (c ∷ s) (d ∷ t) (e ∷ u) h k = ground (arith, str_lt-false_trans s t u)

module _ {A : Type 0} (R : A → A → Type 0) (asym : (a b : A) → R a b → R b a → ⊥) where
  heads :
      (x y : A) (xs ys : List A)
      → AllPairs R (x ∷ xs)
      → AllPairs R (y ∷ ys)
      → In x (y ∷ ys)
      → In y (x ∷ xs)
      → x ≡ y
  heads x y xs ys p q (inl e) j = e
  heads x y xs ys p q (inr i) (inl e) = sym e
  heads x y xs ys p q (inr i) (inr j) = absurd (asym x y (p.0 y j) (q.0 x i))

  tail-In :
      (x y z : A) (xs ys : List A) → AllPairs R (x ∷ xs) → x ≡ y → In z xs → In z (y ∷ ys) → In z ys
  tail-In x y z xs ys p same i (inr j) = j
  tail-In x y z xs ys p same i (inl e) =
      let loop = subst (R x) (e ∙ sym same) (p.0 z i) in absurd (asym x x loop loop)

  pub sorted_unique :
      (xs ys : List A) → AllPairs R xs → AllPairs R ys → ((a : A) → In a xs ↔ In a ys) → xs ≡ ys
  sorted_unique [] [] p q same = refl
  sorted_unique [] (y ∷ ys) p q same = absurd ((same y).1 (inl refl))
  sorted_unique (x ∷ xs) [] p q same = absurd ((same x).0 (inl refl))
  sorted_unique (x ∷ xs) (y ∷ ys) p q same =
      let e = heads x y xs ys p q ((same x).0 (inl refl)) ((same y).1 (inl refl)) in
      let rest = sorted_unique xs ys p.1 q.1 (λ a. (
        λ i. tail-In x y a xs ys p e i ((same a).0 (inr i)),
        λ i. tail-In y x a ys xs q (sym e) i ((same a).1 (inr i)),
      )) in
      ap (λ z. z ∷ xs) e ∙ ap (λ zs. y ∷ zs) rest
