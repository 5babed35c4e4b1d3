-- ===== src/Go/Strconv/Laws.antt =====
-- Printing and reading an unsigned number, and texts of digits.
use native.Mathlib.Nat.{pow-suc}
use kilo_clustermesh_operato.Base.{
  ◌≢◌, ℕ, zero, suc, ◌+◌, ◌-◌, ◌*◌, ◌/◌, ◌%◌, ◌^◌, ◌≤◌, ◌<◌, ◌≡◌, refl, inl, inr, true, false, ◌&&◌,
  some, [], ◌∷◌, ◌++◌, ltb, ltb_iff, Text, all, arith, Bool-cases, &&-eq-true, subst, some-eq-some,
}
use kilo_clustermesh_operato.Go.Strings.{has_char}
use kilo_clustermesh_operato.Go.Strconv.{is_digit, decimal, parse_uint, format_fuel, format_uint}

decimal-append :
    (acc : ℕ) (s : Text) (c : ℕ) → decimal acc (s ++ c ∷ []) ≡ decimal acc s * 10 + (c - b'0')
unfolding decimal
decimal-append acc [] c = refl
decimal-append acc (d ∷ s) c = decimal-append (acc * 10 + (d - b'0')) s c

decimal-nil : (acc : ℕ) → decimal acc [] ≡ acc
unfolding decimal
decimal-nil acc = refl

decimal-one : (c : ℕ) → decimal 0 (c ∷ []) ≡ c - b'0'
unfolding decimal
decimal-one c = omega arith

decimal-format_fuel : (f n : ℕ) → n < 10 ^ f → decimal 0 (format_fuel f n) ≡ n
unfolding format_fuel
decimal-format_fuel zero n h = omega (arith, decimal-nil 0)
decimal-format_fuel (suc f) n h = elim (Bool-cases (ltb n 10)) [
  | inl small ↦ rw small (omega (arith, decimal-one (b'0' + n)))
  | inr large ↦ rw large (
      omega (
        arith,
        decimal-append 0 (format_fuel f (n / 10)) (b'0' + n % 10),
        decimal-format_fuel f (n / 10) (omega (arith, pow-suc 10 f)),
      ))
]

all_digits-append :
    (s : Text) (c : ℕ)
    → all is_digit s ≡ true
    → is_digit c ≡ true
    → all is_digit (s ++ c ∷ []) ≡ true
all_digits-append [] c h k = rw k
all_digits-append (d ∷ s) c h k = ground (arith, all_digits-append s c)

all_digits-format_fuel : (f n : ℕ) → all is_digit (format_fuel f n) ≡ true
unfolding format_fuel
all_digits-format_fuel zero n = refl
all_digits-format_fuel (suc f) n = ground (
  arith,
  all_digits-append (format_fuel f (n / 10)) (b'0' + n % 10) (all_digits-format_fuel f (n / 10)),
)

pub parse_uint_of :
    (bits : ℕ) (s : Text) (n : ℕ)
    → s ≢ []
    → all is_digit s ≡ true
    → decimal 0 s ≡ n
    → n < 2 ^ bits
    → parse_uint bits s ≡ some n
unfolding parse_uint
parse_uint_of bits [] n ne h e k = absurd (ne refl)
parse_uint_of bits (c ∷ s) n ne h e k = rw (h, e, (ltb_iff n (2 ^ bits)).1 k)

pub parse_uint-inv :
    (bits : ℕ) (s : Text) (n : ℕ)
    → parse_uint bits s ≡ some n
    → (s ≢ []) × (all is_digit s ≡ true) × (decimal 0 s ≡ n) × (n < 2 ^ bits)
unfolding parse_uint
parse_uint-inv bits [] n e = cc
parse_uint-inv bits (c ∷ s) n e =
    elim (Bool-cases (all is_digit (c ∷ s) && ltb (decimal 0 (c ∷ s)) (2 ^ bits))) [
      | inl h ↦
          let (digits, bound) = &&-eq-true _ _ h in
          (
            cons-ne-nil,
            digits,
            some-eq-some _ _ (rw h at e),
            subst (λ k. k < 2 ^ bits) (some-eq-some _ _ (rw h at e)) ((ltb_iff _ _).0 bound),
          )
      | inr h ↦ cc (rw h at e)
    ]
  where
    cons-ne-nil : c ∷ s ≢ []
    cons-ne-nil k = cc

-- A number that fits in fewer bits is read in more bits.
pub parse_uint_mono :
    (a b : ℕ) (s : Text) (n : ℕ) → 2 ^ a ≤ 2 ^ b → parse_uint a s ≡ some n → parse_uint b s ≡ some n
parse_uint_mono a b s n h e =
    let (ne, digits, value, bound) = parse_uint-inv a s n e in
    parse_uint_of b s n ne digits value (omega arith)

append-ne-nil : (s : Text) (c : ℕ) → s ++ c ∷ [] ≢ []
append-ne-nil [] c e = cc
append-ne-nil (d ∷ s) c e = cc

format_fuel-ne-nil : (f n : ℕ) → format_fuel (suc f) n ≢ []
unfolding format_fuel
format_fuel-ne-nil f n = elim (Bool-cases (ltb n 10)) [
  | inl small ↦ rw small (append-ne-nil [] (b'0' + n))
  | inr large ↦ rw large (append-ne-nil (format_fuel f (n / 10)) (b'0' + n % 10))
]

format_uint-ne-nil : (n : ℕ) → format_uint n ≢ []
unfolding format_uint
format_uint-ne-nil n = format_fuel-ne-nil 19 n

-- Printing and reading a number gives it back.
pub parse_uint-format_uint :
    (bits n : ℕ) → n < 2 ^ bits → n < 10 ^ 20 → parse_uint bits (format_uint n) ≡ some n
unfolding format_uint
parse_uint-format_uint bits n h k =
    parse_uint_of bits (format_uint n) n (format_uint-ne-nil n) (all_digits-format_fuel 20 n)
      (decimal-format_fuel 20 n k) h

-- A text of digits holds no other character.
pub has_char-digits :
    (c : ℕ) (s : Text) → is_digit c ≡ false → all is_digit s ≡ true → has_char c s ≡ false
unfolding has_char
has_char-digits c [] h k = refl
has_char-digits c (d ∷ s) h k = ground (arith, has_char-digits c s)

pub has_char-format_uint : (c n : ℕ) → is_digit c ≡ false → has_char c (format_uint n) ≡ false
unfolding format_uint
has_char-format_uint c n h = has_char-digits c (format_uint n) h (all_digits-format_fuel 20 n)
