-- ===== src/Go/Net/Canonical.antt =====
-- Networks as `net.ParseCIDR` returns them: the mask is a prefix mask and the number is masked.
-- `contains` on such a network, and how two prefix masks compare.
use Prim.Native.Nat.{bit_and}
use kilo_clustermesh_operato.Base.{
  ℕ, zero, suc, ◌+◌, ◌-◌, ◌^◌, ◌≤◌, ◌<◌, ◌≡◌, refl, inl, inr, ◌⊎◌, sym, ◌∙◌, true, ◌&&◌, some, [],
  ◌∷◌, ◌==◌, leb, if◌then◌else◌, length, take, drop, arith, ==_iff, Bool-cases, &&-eq-true,
}
use kilo_clustermesh_operato.Go.Bits.{every_below, every_below_lem, mask_absorbs}
use kilo_clustermesh_operato.Go.Net.Address.{
  Ip, IpMask, IpNet, and_bytes, mask_byte, cidr_mask, short_form, to4, bytes_equal, v4_in_v6_prefix,
  network_number_and_mask, same_under, contains,
}

pub record IsNet (n : IpNet) : Type 0 where
  pub number : Ip
  pub ones : ℕ
  pub short : short_form n.ip ≡ number
  pub normal : network_number_and_mask n ≡ some (number, cidr_mask ones (length number))
  pub masked : and_bytes number (cidr_mask ones (length number)) ≡ number
  pub family : (length number ≡ 4) ⊎ (length number ≡ 16)
  pub plain_mask : number ≡ n.ip → n.mask ≡ cidr_mask ones (length number)

pub contains-IsNet :
    (n : IpNet) (v : IsNet n) (ip : Ip)
    → contains n ip ≡ (
        length (short_form ip) == length v.number
        && same_under v.number (short_form ip) (cidr_mask v.ones (length v.number)))
unfolding contains
contains-IsNet n v ip = rw (v.normal, contains)

-- The short form of an address of 4 bytes, and the two short forms of one of 16 bytes.
pub short_form-four : (x : Ip) → length x ≡ 4 → short_form x ≡ x
unfolding short_form to4
short_form-four x h = ground arith

pub short_form-sixteen : (x : Ip) → length x ≡ 16 → (short_form x ≡ x) ⊎ (short_form x ≡ drop 12 x)
unfolding short_form to4
short_form-sixteen x h = elim (Bool-cases (bytes_equal (take 12 x) v4_in_v6_prefix)) [
  | inl e ↦ inr (ground arith)
  | inr e ↦ inl (ground arith)
]

pub same_under_refl : (x : Ip) (m : IpMask) → same_under x x m ≡ true
unfolding same_under
same_under_refl [] m = refl
same_under_refl (a ∷ x) [] = refl
same_under_refl (a ∷ x) (c ∷ m) =
    ground (arith, same_under_refl x m, ==_iff (bit_and a c) (bit_and a c))

pub mask_byte-lt : (n : ℕ) → mask_byte n < 2 ^ 8
unfolding mask_byte
mask_byte-lt n = ground arith

pub mask_byte_complement : (n : ℕ) → mask_byte n + (255 - mask_byte n) + 1 ≡ 2 ^ 8
mask_byte_complement n = omega (arith, mask_byte-lt n)

min8 : ℕ → ℕ
min8 n = if leb 8 n then 8 else n

mask_byte-min8 : (n : ℕ) → mask_byte n ≡ mask_byte (min8 n)
unfolding mask_byte min8
mask_byte-min8 n = elim (Bool-cases (leb 8 n)) [ inl h ↦ rw h | inr h ↦ rw (h, h) ]

nested_table :
    every_below 9 (λ q.
      every_below 9
        (λ p. if leb p q then bit_and (mask_byte p) (mask_byte q) == mask_byte p else true))
    ≡ true
unfolding every_below mask_byte
nested_table = refl

min8-lt : (n : ℕ) → min8 n < 9
unfolding min8
min8-lt n = ground arith

min8_mono : (p q : ℕ) → p ≤ q → leb (min8 p) (min8 q) ≡ true
unfolding min8
min8_mono p q h = ground arith

-- The mask of the shorter prefix has no digit outside that of the longer one.
pub mask_byte_nested : (p q : ℕ) → p ≤ q → bit_and (mask_byte p) (mask_byte q) ≡ mask_byte p
mask_byte_nested p q h =
    let row = every_below_lem 9 _ (min8 q) nested_table (min8-lt q) in
    let cell = every_below_lem 9 _ (min8 p) row (min8-lt p) in
    rw (mask_byte-min8 p, mask_byte-min8 q) ((==_iff _ _).0 (rw (min8_mono p q h) at cell))

-- One byte of: an address inside both networks puts the narrower network inside the wider one.
nested_byte :
    (p q a b x : ℕ)
    → p ≤ q
    → bit_and a (mask_byte p) ≡ bit_and x (mask_byte p)
    → bit_and b (mask_byte q) ≡ bit_and x (mask_byte q)
    → bit_and b (mask_byte q) ≡ b
    → bit_and a (mask_byte p) ≡ bit_and b (mask_byte p)
nested_byte p q a b x h e1 e2 e3 =
    e1
    ∙ sym (
        mask_absorbs 8 x (mask_byte q) (mask_byte p) b (mask_byte-lt p) (mask_byte_nested p q h)
          (sym e2 ∙ e3))

pub head-eq : (a b : ℕ) (x y : Ip) → a ∷ x ≡ b ∷ y → a ≡ b
head-eq a b x y e = ground arith

pub tail-eq : (a b : ℕ) (x y : Ip) → a ∷ x ≡ b ∷ y → x ≡ y
tail-eq a b x y e = ground arith

pub same_under_nested :
    (l p q : ℕ) (na nb x : Ip)
    → p ≤ q
    → length na ≡ l
    → length nb ≡ l
    → length x ≡ l
    → same_under na x (cidr_mask p l) ≡ true
    → same_under nb x (cidr_mask q l) ≡ true
    → and_bytes nb (cidr_mask q l) ≡ nb
    → same_under na nb (cidr_mask p l) ≡ true
unfolding same_under and_bytes cidr_mask
same_under_nested zero p q [] nb x h la lb lx s1 s2 e = refl
same_under_nested zero p q (a ∷ na) nb x h la lb lx s1 s2 e = absurd (omega arith)
same_under_nested (suc l) p q [] nb x h la lb lx s1 s2 e = refl
same_under_nested (suc l) p q (a ∷ na) [] x h la lb lx s1 s2 e = refl
same_under_nested (suc l) p q (a ∷ na) (b ∷ nb) [] h la lb lx s1 s2 e = absurd (omega arith)
same_under_nested (suc l) p q (a ∷ na) (b ∷ nb) (c ∷ x) h la lb lx s1 s2 e =
    let (f1, r1) = &&-eq-true _ _ s1 in
    let (f2, r2) = &&-eq-true _ _ s2 in
    let byte =
      nested_byte p q a b c h ((==_iff _ _).0 f1) ((==_iff _ _).0 f2) (head-eq _ _ _ _ e) in
    let rest =
      same_under_nested l (p - 8) (q - 8) na nb x (omega arith) (omega arith) (omega arith)
        (omega arith) r1 r2 (tail-eq _ _ _ _ e) in
    rw ((==_iff _ _).1 byte, rest)
