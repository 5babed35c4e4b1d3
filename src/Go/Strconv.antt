-- ===== src/Go/Strconv.antt =====
-- Package `strconv` of Go: unsigned numbers in base 10.
pub mod Laws
use kilo_clustermesh_operato.Base.{
  ℕ, zero, suc, ◌+◌, ◌-◌, ◌*◌, ◌/◌, ◌%◌, ◌^◌, Bool, true, false, ◌&&◌, ◌||◌, Option, none, some,
  List, [], ◌∷◌, ◌++◌, ltb, leb, if◌then◌else◌, Text, all,
}

abbrev pub is_digit : ℕ → Bool
is_digit c = leb b'0' c && leb c b'9'

-- The number that a text of digits reads, after `acc`.
unfoldable pub decimal : ℕ → Text → ℕ
decimal acc [] = acc
decimal acc (c ∷ s) = decimal (acc * 10 + (c - b'0')) s

-- `strconv.ParseUint(s, 10, bits)`: digits only, at least one, and the value fits.
unfoldable pub parse_uint : ℕ → Text → Option ℕ
unfolding decimal
parse_uint bits [] = none
parse_uint bits (c ∷ s) =
    if all is_digit (c ∷ s) && ltb (decimal 0 (c ∷ s)) (2 ^ bits)
    then some (decimal 0 (c ∷ s))
    else none

format_fuel : ℕ → ℕ → Text
format_fuel zero n = []
format_fuel (suc f) n =
    let rest = format_fuel f (n / 10) ++ (b'0' + n % 10) ∷ [] in
    if ltb n 10 then (b'0' + n) ∷ [] else rest

-- `strconv.FormatUint(n, 10)`: 20 digits are enough for 64 bits.
unfoldable pub format_uint : ℕ → Text
unfolding format_fuel
format_uint n = format_fuel 20 n
