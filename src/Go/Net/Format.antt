-- ===== src/Go/Net/Format.antt =====
-- `net.IP.String`.
use kilo_clustermesh_operato.Base.{
  ℕ, suc, ◌+◌, ◌-◌, ◌*◌, ◌/◌, ◌%◌, none, some, List, [], ◌∷◌, ◌++◌, ◌==◌, leb, ltb, if◌then◌else◌,
  length, take, drop, Text, codes,
}
use kilo_clustermesh_operato.Go.Strconv.{format_uint}
use kilo_clustermesh_operato.Go.Net.Address.{Ip, to4}

-- `strings.Join`
unfoldable pub join : Text → List Text → Text
join sep [] = []
join sep (s ∷ []) = s
join sep (s ∷ t ∷ ts) = s ++ sep ++ join sep (t ∷ ts)

abbrev hex_char : ℕ → ℕ
hex_char d = if ltb d 10 then b'0' + d else b'a' + (d - 10)

-- A group without leading zeros.
hex_group_string : ℕ → Text
hex_group_string n =
    if ltb n 16
    then hex_char n ∷ []
    else if ltb n 256
    then hex_char (n / 16) ∷ hex_char (n % 16) ∷ []
    else if ltb n 4096
    then hex_char (n / 256) ∷ hex_char (n / 16 % 16) ∷ hex_char (n % 16) ∷ []
    else hex_char (n / 4096)
      ∷ hex_char (n / 256 % 16)
      ∷ hex_char (n / 16 % 16)
      ∷ hex_char (n % 16)
      ∷ []

groups : Ip → List ℕ
groups [] = []
groups (a ∷ []) = []
groups (a ∷ b ∷ ip) = (a * 256 + b) ∷ groups ip

leading_zeros : List ℕ → ℕ
leading_zeros [] = 0
leading_zeros (g ∷ gs) = if g == 0 then suc (leading_zeros gs) else 0

-- The first of the longest runs of zero groups, as its start and its length.
longest_run : ℕ → List ℕ → ℕ × ℕ
unfolding leading_zeros
longest_run i [] = (0, 0)
longest_run i (g ∷ gs) =
    let (start, len) = longest_run (suc i) gs in
    if leb len (leading_zeros (g ∷ gs)) then (i, leading_zeros (g ∷ gs)) else (start, len)

v6_string : List ℕ → Text
unfolding longest_run hex_group_string join
v6_string gs =
    let (start, len) = longest_run 0 gs in
    if leb 2 len
    then join (codes ":") (strings (take start gs))
      ++ codes "::"
      ++ join (codes ":") (strings (drop (start + len) gs))
    else join (codes ":") (strings gs)
  where
    strings : List ℕ → List Text
    strings [] = []
    strings (h ∷ hs) = hex_group_string h ∷ strings hs

bytes_hex : Ip → Text
bytes_hex [] = []
bytes_hex (b ∷ bs) = hex_char (b / 16) ∷ hex_char (b % 16) ∷ bytes_hex bs

v4_string : Ip → Text
unfolding join format_uint
v4_string ip = join (codes ".") (decimals ip)
  where
    decimals : Ip → List Text
    decimals [] = []
    decimals (b ∷ bs) = format_uint b ∷ decimals bs

unfoldable pub ip_string : Ip → Text
unfolding v4_string v6_string groups bytes_hex to4
ip_string ip = if length ip == 0 then codes "<nil>" else elim (to4 ip) [
  | some v4 ↦ v4_string v4
  | none ↦ if length ip == 16 then v6_string (groups ip) else b'?' ∷ bytes_hex ip
]
