-- ===== src/Peer/Naming.antt =====
-- internal/peer/naming.go: the names and labels of generated peers. Lower case beyond ASCII and
-- SHA-256 are parameters: Unicode's table and a digest that the program does not implement.
pub mod Bounds
pub mod Collisions
use kilo_clustermesh_operato.Base.{
  ℕ, ◌+◌, ◌-◌, Bool, true, false, ◌&&◌, ◌||◌, List, [], ◌∷◌, ◌++◌, String, if◌then◌else◌, Text, leb,
  ltb, length, take, map, codes, ◌==◌,
}
use kilo_clustermesh_operato.Go.Strings.{trim_left, trim_right}

abbrev pub label_mesh : String
label_mesh = "kilo-clustermesh.io/mesh"

abbrev pub label_source_cluster : String
label_source_cluster = "kilo-clustermesh.io/source-cluster"

abbrev pub max_name_length : ℕ
max_name_length = 253

-- `unicode.ToLower` beyond ASCII, and the first 8 bytes of a text's SHA-256 in 16 hex digits.
pub record Platform : Type 0 where
  pub lower_rune : ℕ → ℕ
  pub hash16 : Text → Text

-- `fmt.Sprintf("%s--%s--%s", …)`
unfoldable pub raw_name : Text → Text → Text → Text
raw_name mesh_name source_cluster node_name =
    mesh_name ++ (b'-' ∷ b'-' ∷ (source_cluster ++ (b'-' ∷ b'-' ∷ node_name)))

-- The characters that the switch of `sanitizeDNS` keeps.
abbrev pub is_dns_char : ℕ → Bool
is_dns_char c = (leb b'a' c && leb c b'z') || (leb b'0' c && leb c b'9') || c == b'.' || c == b'-'

-- The set `-.` of the trims.
abbrev pub is_separator : ℕ → Bool
is_separator c = c == b'-' || c == b'.'

module _ (os : Platform) where
  -- One rune of `strings.ToLower`.
  unfoldable pub to_lower : ℕ → ℕ
  to_lower c = if leb b'A' c && leb c b'Z' then c + 32 else if ltb c 128 then c else os.lower_rune c

  -- One rune of `sanitizeDNS`.
  unfoldable pub sanitize_rune : ℕ → ℕ
  unfolding to_lower
  sanitize_rune c = if is_dns_char (to_lower c) then to_lower c else b'-'

  -- `sanitizeDNS`
  unfoldable pub sanitize_dns : Text → Text
  unfolding sanitize_rune
  sanitize_dns input = trim_right is_separator (trim_left is_separator (map sanitize_rune input))

  -- `Name`, from the raw name.
  unfoldable pub name_of_raw : Text → Text
  name_of_raw raw =
      if leb (length (sanitize_dns raw)) max_name_length
      then sanitize_dns raw
      else trim_right is_separator (take (max_name_length - 17) (sanitize_dns raw))
        ++ (b'-' ∷ os.hash16 raw)

  -- `Name`
  unfoldable pub name : Text → Text → Text → Text
  unfolding name_of_raw raw_name
  name mesh_name source_cluster node_name =
      name_of_raw (raw_name mesh_name source_cluster node_name)

-- `Labels`
unfoldable pub labels : Text → Text → List (String × Text)
labels mesh_name source_cluster =
    (label_mesh, mesh_name) ∷ (label_source_cluster, source_cluster) ∷ []
