-- ===== src/Go/Net/Parse.antt =====
-- `net.ParseIP` and `net.ParseCIDR`, with the parsers of `net/netip` behind them.
pub mod Lengths
use kilo_clustermesh_operato.Base.{
  ℕ, zero, suc, ◌+◌, ◌-◌, ◌*◌, ◌/◌, ◌%◌, Bool, true, false, ◌&&◌, ◌||◌, not, Option, none, some,
  List, [], ◌∷◌, ◌++◌, ◌==◌, leb, ltb, if◌then◌else◌, length, take, drop, replicate, Text, ◌>>=◌,
  all,
}
use kilo_clustermesh_operato.Go.Strings.{has_char, cut, split}
use kilo_clustermesh_operato.Go.Strconv.{is_digit, decimal}
use kilo_clustermesh_operato.Go.Net.Address.{Ip, IpNet, v4_in_v6_prefix, and_bytes, cidr_mask}

-- One field of an IPv4 address: digits only, no leading zero, at most 255.
v4_field : Text → Option ℕ
v4_field [] = none
v4_field (c ∷ s) =
    if all is_digit (c ∷ s) && leb (decimal 0 (c ∷ s)) 255 && (not (c == b'0') || length s == 0)
    then some (decimal 0 (c ∷ s))
    else none

v4_fields : List Text → Option Ip
v4_fields [] = some []
v4_fields (f ∷ fs) = do b ← v4_field f; bs ← v4_fields fs; some (b ∷ bs)

-- `parseIPv4`
parse_v4 : Text → Option Ip
unfolding split v4_field v4_fields decimal
parse_v4 s = if length (split b'.' s) == 4 then v4_fields (split b'.' s) else none

hex_digit : ℕ → Option ℕ
hex_digit c =
    if is_digit c
    then some (c - b'0')
    else if leb b'a' c && leb c b'f'
    then some (c - b'a' + 10)
    else if leb b'A' c && leb c b'F'
    then some (c - b'A' + 10)
    else none

-- The hex digits of a group: value, count and the text behind them; the fifth digit is an error.
hex_group : ℕ → ℕ → Text → Option (ℕ × ℕ × Text)
unfolding hex_digit
hex_group acc off [] = some (acc, off, [])
hex_group acc off (c ∷ s) = elim (hex_digit c) [
  | none ↦ some (acc, off, c ∷ s)
  | some d ↦ if ltb 3 off then none else hex_group (acc * 16 + d) (off + 1) s
]

-- The loop of `parseIPv6` after one round: an error, its end, or another round.
pub data Round : Type 0 where
  broken : Round
  ended : Ip → Option ℕ → Round
  goes_on : Ip → Option ℕ → Text → Round

abbrev is_none {ℓ} : {A : Type ℓ} → Option A → Bool
is_none none = true
is_none (some a) = false

-- Behind the colon of a group; `ip` holds the groups so far.
after_colon : Ip → Option ℕ → Text → Round
after_colon ip ellipsis [] = broken
after_colon ip ellipsis (c ∷ s) =
    if c == b':'
    then (if is_none ellipsis
        then (if length s == 0
            then ended ip (some (length ip))
            else goes_on ip (some (length ip)) s)
        else broken)
    else goes_on ip ellipsis (c ∷ s)

-- Behind the digits of a group: `s` is the text from its first digit on.
after_group : Ip → Option ℕ → Text → ℕ → Text → Round
unfolding after_colon parse_v4
after_group ip ellipsis s acc [] = ended (ip ++ (acc / 256) ∷ (acc % 256) ∷ []) ellipsis
after_group ip ellipsis s acc (c ∷ rest) =
    if c == b'.'
    then (if (is_none ellipsis && not (length ip == 12)) || ltb 16 (length ip + 4)
        then broken
        else elim (parse_v4 s) [ none ↦ broken | some v4 ↦ ended (ip ++ v4) ellipsis ])
    else if c == b':'
    then after_colon (ip ++ (acc / 256) ∷ (acc % 256) ∷ []) ellipsis rest
    else broken

one_round : Ip → Option ℕ → Text → Round
unfolding hex_group after_group
one_round ip ellipsis s = elim (hex_group 0 0 s) [
  | none ↦ broken
  | some (acc, off, rest) ↦ if off == 0 then broken else after_group ip ellipsis s acc rest
]

-- The whole address, with the ellipsis expanded to zeros.
expand : Ip → Option ℕ → Option Ip
expand ip none = if length ip == 16 then some ip else none
expand ip (some e) =
    if ltb (length ip) 16
    then some (take e ip ++ replicate (16 - length ip) 0 ++ drop e ip)
    else none

-- A round adds two bytes, so eight rounds fill the address; text left over is an error.
v6_loop : ℕ → Ip → Option ℕ → Text → Option Ip
unfolding one_round expand
v6_loop zero ip ellipsis s = none
v6_loop (suc f) ip ellipsis s = elim (one_round ip ellipsis s) [
  | broken ↦ none
  | ended ip' ellipsis' ↦ expand ip' ellipsis'
  | goes_on ip' ellipsis' s' ↦ v6_loop f ip' ellipsis' s'
]

-- `parseIPv6` for text without a zone, the leading ellipsis first.
parse_v6 : Text → Option Ip
unfolding v6_loop
parse_v6 [] = v6_loop 8 [] none []
parse_v6 (a ∷ []) = v6_loop 8 [] none (a ∷ [])
parse_v6 (a ∷ b ∷ []) =
    if a == b':' && b == b':' then some (replicate 16 0) else v6_loop 8 [] none (a ∷ b ∷ [])
parse_v6 (a ∷ b ∷ c ∷ s) =
    if a == b':' && b == b':'
    then v6_loop 8 [] (some 0) (c ∷ s)
    else v6_loop 8 [] none (a ∷ b ∷ c ∷ s)

-- The first of `.` and `:` decides the family.
by_first : Text → Text → Option Ip
unfolding parse_v4 parse_v6
by_first s [] = none
by_first s (c ∷ t) =
    if c == b'.' then parse_v4 s else if c == b':' then parse_v6 s else by_first s t

-- `netip.ParseAddr`. An address with a zone is refused by both callers.
unfoldable pub parse_addr : Text → Option Ip
unfolding by_first has_char
parse_addr s = if has_char b'%' s then none else by_first s s

-- `Addr.As16`
unfoldable pub as16 : Ip → Ip
as16 ip = if length ip == 4 then v4_in_v6_prefix ++ ip else ip

-- `net.ParseIP`, `none` for nil.
unfoldable pub parse_ip : Text → Option Ip
unfolding parse_addr as16
parse_ip s = do ip ← parse_addr s; some (as16 ip)

-- The prefix length behind the slash.
pub prefix_length : ℕ → Text → Option ℕ
unfolding decimal
prefix_length bits [] = none
prefix_length bits (c ∷ s) =
    if all is_digit (c ∷ s) && leb (decimal 0 (c ∷ s)) bits then some (decimal 0 (c ∷ s)) else none

-- `net.ParseCIDR`: the address in 16 bytes, and the network in the length of its family.
unfoldable pub parse_cidr : Text → Option (Ip × IpNet)
unfolding parse_addr as16 prefix_length and_bytes cidr_mask cut
parse_cidr s = do
  (addr, mask) ← cut b'/' s
  ip ← parse_addr addr
  n ← prefix_length (8 * length ip) mask
  let m = cidr_mask n (length ip)
  some (as16 ip, record { ip = and_bytes ip m; mask = m })
