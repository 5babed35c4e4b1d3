-- ===== src/Go/Bits.antt =====
-- `&` and `|` of Go on bytes at variables: one binary digit at a time, and the facts about masks
-- that follow by induction on the width.
use Prim.Native.Nat.{bit_and, bit_or, bit_and-bitwise, bit_or-bitwise, digits, min, max}
use native.Mathlib.Nat.{pow-suc}
use kilo_clustermesh_operato.Base.{
  Bool, true, ◌&&◌, ℕ, zero, suc, ◌+◌, ◌*◌, ◌/◌, ◌%◌, ◌^◌, ◌≤◌, ◌<◌, ◌≡◌, refl, sym, ap, ◌∙◌, arith,
}

-- The count of digits to go does not matter, once it covers the first number.
digits_agree :
    (rest : ℕ → ℕ) (op : ℕ → ℕ → ℕ) (x y k l : ℕ)
    → x ≤ k
    → x ≤ l
    → digits rest op k x y ≡ digits rest op l x y
digits_agree rest op zero y zero zero hk hl = refl
digits_agree rest op zero y zero (suc l) hk hl = refl
digits_agree rest op zero y (suc k) zero hk hl = refl
digits_agree rest op zero y (suc k) (suc l) hk hl = refl
digits_agree rest op (suc x) y zero l hk hl = absurd (omega arith)
digits_agree rest op (suc x) y (suc k) zero hk hl = absurd (omega arith)
digits_agree rest op (suc x) y (suc k) (suc l) hk hl =
    ap (λ high. high * 2 + op (suc x % 2) (y % 2))
      (digits_agree rest op (suc x / 2) (y / 2) k l (omega arith) (omega arith))

-- A positive number has a lowest digit and the digits of its half.
digits_step :
    (rest : ℕ → ℕ) (op : ℕ → ℕ → ℕ) (x y : ℕ)
    → digits rest op (suc x) (suc x) y
      ≡ digits rest op (suc x / 2) (suc x / 2) (y / 2) * 2 + op (suc x % 2) (y % 2)
digits_step rest op x y =
    ap (λ high. high * 2 + op (suc x % 2) (y % 2))
      (digits_agree rest op (suc x / 2) (y / 2) x (suc x / 2) (omega arith) (omega arith))

pub bit_and_step : (x y : ℕ) → bit_and x y ≡ bit_and (x / 2) (y / 2) * 2 + min (x % 2) (y % 2)
bit_and_step zero y = omega (bit_and-bitwise 0 (y / 2), bit_and-bitwise 0 y, arith)
bit_and_step (suc x) y =
    bit_and-bitwise (suc x) y
    ∙ digits_step (λ d. 0) min x y
    ∙ ap (λ high. high * 2 + min (suc x % 2) (y % 2)) (sym (bit_and-bitwise (suc x / 2) (y / 2)))

pub bit_or_step : (x y : ℕ) → bit_or x y ≡ bit_or (x / 2) (y / 2) * 2 + max (x % 2) (y % 2)
bit_or_step zero y = omega (bit_or-bitwise 0 (y / 2), bit_or-bitwise 0 y, arith)
bit_or_step (suc x) y =
    bit_or-bitwise (suc x) y
    ∙ digits_step (λ d. d) max x y
    ∙ ap (λ high. high * 2 + max (suc x % 2) (y % 2)) (sym (bit_or-bitwise (suc x / 2) (y / 2)))

-- By strong induction on the first number, counted by `top`.
no_bits_right : (top x : ℕ) → x ≤ top → bit_and x 0 ≡ 0
no_bits_right top zero small = bit_and-bitwise 0 0
no_bits_right zero (suc x) small = absurd (omega arith)
no_bits_right (suc top) (suc x) small =
    let half = no_bits_right top (suc x / 2) (omega arith) in
    omega (arith, half, bit_and_step (suc x) 0)

-- A number without bits has none in common with another.
bit_and-below_one : (a b : ℕ) → b < 1 → bit_and a b ≡ 0
bit_and-below_one a zero h = no_bits_right a a (omega arith)
bit_and-below_one a (suc b) h = absurd (omega arith)

-- A number without bits has none in common with another.
bit_and_below_one : (a b : ℕ) → a < 1 → bit_and a b ≡ 0
bit_and_below_one zero b h = bit_and-bitwise 0 b
bit_and_below_one (suc a) b h = absurd (omega arith)

bit_and_self_fuel : (f a : ℕ) → a ≤ f → bit_and a a ≡ a
bit_and_self_fuel zero a h = omega (arith, bit_and_below_one a a (omega arith))
bit_and_self_fuel (suc f) zero h = bit_and_below_one 0 0 (omega arith)
bit_and_self_fuel (suc f) (suc a) h =
    omega (arith, bit_and_step (suc a) (suc a), bit_and_self_fuel f (suc a / 2) (omega arith))

bit_and_self : (a : ℕ) → bit_and a a ≡ a
bit_and_self a = bit_and_self_fuel a a (omega arith)

-- An equation of a conjunction holds of the lowest digits, and of the rest.
and-half :
    (a b c : ℕ)
    → bit_and a b ≡ c
    → (bit_and (a / 2) (b / 2) ≡ c / 2) × (min (a % 2) (b % 2) ≡ c % 2)
and-half a b c e = omega (arith, bit_and_step a b)

or-half :
    (a b c : ℕ) → bit_or a b ≡ c → (bit_or (a / 2) (b / 2) ≡ c / 2) × (max (a % 2) (b % 2) ≡ c % 2)
or-half a b c e = omega (arith, bit_or_step a b)

complement-half :
    (k m c : ℕ) → m + c + 1 ≡ 2 ^ suc k → (m / 2 + c / 2 + 1 ≡ 2 ^ k) × (m % 2 + c % 2 ≡ 1)
complement-half k m c e = omega (arith, pow-suc 2 k)

half-lt : (k x : ℕ) → x < 2 ^ suc k → x / 2 < 2 ^ k
half-lt k x h = omega (arith, pow-suc 2 k)

-- The statement of `block_agrees` at one digit.
digit_agrees :
    (x m c w n u o : ℕ)
    → x < 2
    → m + c ≡ 1
    → min x m ≡ n
    → max n c ≡ u
    → min n w ≡ o
    → min u w ≡ o
    → min x w ≡ o
digit_agrees x m c w n u o hx hc e1 e2 e3 e4 = omega arith

-- `c` is the complement of `m` at width `k`: if the lowest and the highest value of a block with
-- mask `m` agree under the mask `w`, so does every value of the block.
pub block_agrees :
    (k x m c w n u o : ℕ)
    → w < 2 ^ k
    → m + c + 1 ≡ 2 ^ k
    → bit_and x m ≡ n
    → bit_or n c ≡ u
    → bit_and n w ≡ o
    → bit_and u w ≡ o
    → bit_and x w ≡ o
block_agrees zero x m c w n u o hx hc e1 e2 e3 e4 =
    omega (arith, bit_and-below_one n w hx, bit_and-below_one x w hx)
block_agrees (suc k) x m c w n u o hx hc e1 e2 e3 e4 =
    let (a1, d1) = and-half x m n e1 in
    let (a2, d2) = or-half n c u e2 in
    let (a3, d3) = and-half n w o e3 in
    let (a4, d4) = and-half u w o e4 in
    let (hc', dc) = complement-half k m c hc in
    let high =
      block_agrees k (x / 2) (m / 2) (c / 2) (w / 2) (n / 2) (u / 2) (o / 2) (half-lt k w hx) hc' a1
        a2 a3 a4 in
    let low =
      digit_agrees (x % 2) (m % 2) (c % 2) (w % 2) (n % 2) (u % 2) (o % 2) (omega arith) dc d1 d2 d3
        d4 in
    omega (arith, bit_and_step x w)

-- A mask `w` whose digits are all in the mask `m` reads the same of a value and of its network.
pub mask_absorbs :
    (k x m w n : ℕ) → w < 2 ^ k → bit_and w m ≡ w → bit_and x m ≡ n → bit_and n w ≡ bit_and x w
mask_absorbs zero x m w n hx e1 e2 =
    omega (arith, bit_and-below_one n w hx, bit_and-below_one x w hx)
mask_absorbs (suc k) x m w n hx e1 e2 =
    let (a1, d1) = and-half w m w e1 in
    let (a2, d2) = and-half x m n e2 in
    let high = mask_absorbs k (x / 2) (m / 2) (w / 2) (n / 2) (half-lt k w hx) a1 a2 in
    omega (arith, bit_and_step x w, bit_and_step n w)

-- Over a small range, every value is checked by evaluation.
unfoldable pub every_below : ℕ → (ℕ → Bool) → Bool
every_below zero p = true
every_below (suc n) p = p n && every_below n p

pub every_below_lem :
    (bound : ℕ) (test : ℕ → Bool) (v : ℕ)
    → every_below bound test ≡ true
    → v < bound
    → test v ≡ true
unfolding every_below
every_below_lem (suc bound) test v e small = ground (every_below_lem bound test v, arith)
every_below_lem zero test v e small = absurd (omega arith)

pub bit_and_idem : (k x m : ℕ) → m < 2 ^ k → bit_and (bit_and x m) m ≡ bit_and x m
bit_and_idem k x m h = mask_absorbs k x m m (bit_and x m) h (bit_and_self m) refl
