-- ===== src/Go/Net/Address.antt =====
-- Package `net` of Go: addresses as byte slices, networks, `IP.To4`, `IPNet.Contains` and
-- `IPMask.Size`.
use Prim.Native.Nat.{bit_and}
use mathlib.Core.Option
use kilo_clustermesh_operato.Base.{
  ℕ, zero, suc, ◌+◌, ◌-◌, ◌*◌, ◌/◌, ◌^◌, Bool, true, false, ◌&&◌, ◌||◌, Option, none, some, List,
  [], ◌∷◌, ◌==◌, leb, if◌then◌else◌, length, take, drop, all,
}

-- `net.IP` and `net.IPMask`: 4 or 16 bytes, any other length being invalid.
abbrev pub Ip : Type 0
Ip = List ℕ

abbrev pub IpMask : Type 0
IpMask = List ℕ

pub record IpNet : Type 0 where
  pub ip : Ip
  pub mask : IpMask

abbrev pub v4_in_v6_prefix : List ℕ
v4_in_v6_prefix = 0 ∷ 0 ∷ 0 ∷ 0 ∷ 0 ∷ 0 ∷ 0 ∷ 0 ∷ 0 ∷ 0 ∷ 255 ∷ 255 ∷ []

unfoldable pub bytes_equal : List ℕ → List ℕ → Bool
bytes_equal [] [] = true
bytes_equal [] (b ∷ bs) = false
bytes_equal (a ∷ as') [] = false
bytes_equal (a ∷ as') (b ∷ bs) = a == b && bytes_equal as' bs

-- `IP.To4`, `none` for nil.
unfoldable pub to4 : Ip → Option Ip
unfolding bytes_equal
to4 ip =
    if length ip == 4
    then some ip
    else if length ip == 16 && bytes_equal (take 12 ip) v4_in_v6_prefix
    then some (drop 12 ip)
    else none

unfoldable pub and_bytes : List ℕ → List ℕ → List ℕ
and_bytes [] m = []
and_bytes (a ∷ as') [] = []
and_bytes (a ∷ as') (b ∷ bs) = bit_and a b ∷ and_bytes as' bs

-- `net.CIDRMask(ones, 8 * len)`, byte by byte: `0xff` while eight ones are left, then the partial
-- byte, then zeros.
unfoldable pub mask_byte : ℕ → ℕ
mask_byte n = if leb 8 n then 255 else 255 - 255 / 2 ^ n

unfoldable pub cidr_mask : ℕ → ℕ → IpMask
unfolding mask_byte
cidr_mask ones zero = []
cidr_mask ones (suc len) = mask_byte ones ∷ cidr_mask (ones - 8) len

-- An address read in its short form where it has one, as `Contains` reads both its operands.
unfoldable pub short_form : Ip → Ip
unfolding to4
short_form ip = elim (to4 ip) [ some x ↦ x | none ↦ ip ]

masked_number : Ip → IpMask → Option (Ip × IpMask)
masked_number nn m =
    if length m == 4
    then (if length nn == 4 then some (nn, m) else none)
    else if length m == 16
    then some (nn, if length nn == 4 then drop 12 m else m)
    else none

-- `networkNumberAndMask`, `none` for (nil, nil).
unfoldable pub network_number_and_mask : IpNet → Option (Ip × IpMask)
unfolding masked_number
network_number_and_mask n =
    if length (short_form n.ip) == 4 || length (short_form n.ip) == 16
    then masked_number (short_form n.ip) n.mask
    else none

-- The loop of `Contains`.
unfoldable pub same_under : Ip → Ip → IpMask → Bool
same_under [] y m = true
same_under (a ∷ x) [] m = true
same_under (a ∷ x) (b ∷ y) [] = true
same_under (a ∷ x) (b ∷ y) (c ∷ m) = bit_and a c == bit_and b c && same_under x y m

-- `IPNet.Contains`. A nil network number has length 0.
unfoldable pub contains : IpNet → Ip → Bool
unfolding network_number_and_mask same_under short_form
contains n ip = elim (network_number_and_mask n) [
  | none ↦ length (short_form ip) == 0
  | some (nn, m) ↦ length (short_form ip) == length nn && same_under nn (short_form ip) m
]

-- The number of leading ones of a byte that is a mask of its own, `none` for any other.
byte_ones : ℕ → Option ℕ
byte_ones b =
    if b == 254
    then some 7
    else if b == 252
    then some 6
    else if b == 248
    then some 5
    else if b == 240
    then some 4
    else if b == 224
    then some 3
    else if b == 192
    then some 2
    else if b == 128
    then some 1
    else if b == 0
    then some 0
    else none

-- `simpleMaskLength`, `none` for -1.
simple_mask_length : ℕ → IpMask → Option ℕ
unfolding byte_ones
simple_mask_length n [] = some n
simple_mask_length n (b ∷ m) =
    if b == 255
    then simple_mask_length (n + 8) m
    else if all (λ c. c == 0) m
    then Option.map (λ k. n + k) (byte_ones b)
    else none

-- `IPMask.Size`: ones and bits, both 0 for a mask that is no prefix.
unfoldable pub mask_size : IpMask → ℕ × ℕ
unfolding simple_mask_length
mask_size m = elim (simple_mask_length 0 m) [ none ↦ (0, 0) | some n ↦ (n, 8 * length m) ]
