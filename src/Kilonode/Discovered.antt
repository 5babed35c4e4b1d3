-- ===== src/Kilonode/Discovered.antt =====
-- internal/kilonode/discovered.go: the endpoints that a cluster's nodes have observed. The decoding
-- of the annotation's JSON is a parameter: the entries of the map, in the order of `range`.
pub mod Usable
pub mod First
use Prim.Native.Nat.{bit_and}
use kilo_clustermesh_operato.Base.{
  ℕ, zero, suc, ◌+◌, Bool, true, false, ◌&&◌, ◌||◌, Option, none, some, List, [], ◌∷◌, ◌++◌, String,
  if◌then◌else◌, Text, ◌==◌, lookup, replicate, get_key, set_key,
}
use kilo_clustermesh_operato.Api.{Node}
use kilo_clustermesh_operato.Go.Strconv.{format_uint}
use kilo_clustermesh_operato.Go.Net.Address.{Ip, to4, bytes_equal}
use kilo_clustermesh_operato.Go.Net.Parse.{parse_ip}
use kilo_clustermesh_operato.Go.Net.HostPort.{join_host_port}
use kilo_clustermesh_operato.Kilonode.{is_empty, source}

abbrev pub annotation_discovered_endpoints : String
annotation_discovered_endpoints = "kilo.squat.ai/discovered-endpoints"

-- `int`; `negsuc n` is -(n + 1).
pub data ℤ : Type 0 where
  pos : ℕ → ℤ
  negsuc : ℕ → ℤ

-- `discoveredEndpointEntry`
pub record DiscoveredEntry : Type 0 where
  pub ip : Text
  pub port : ℤ

-- `json.Unmarshal` into a map of entries by public key, `none` for its error.
abbrev pub Decoder : Type 0
Decoder = Text → Option (List (Text × DiscoveredEntry))

-- `IP.IsLoopback`
unfoldable pub is_loopback : Ip → Bool
unfolding to4 bytes_equal
is_loopback ip = elim (to4 ip) [
  | some v4 ↦ first_byte v4 == 127
  | none ↦ bytes_equal ip (replicate 15 0 ++ (1 ∷ []))
]
  where
    first_byte : Ip → ℕ
    first_byte [] = 0
    first_byte (b ∷ bs) = b

-- `IP.IsLinkLocalUnicast`
unfoldable pub is_link_local_unicast : Ip → Bool
unfolding to4
is_link_local_unicast ip = elim (to4 ip) [
  | some v4 ↦ starts v4 (λ a b. a == 169 && b == 254)
  | none ↦ starts ip (λ a b. a == 0xfe && bit_and b 0xc0 == 0x80)
]
  where
    starts : Ip → (ℕ → ℕ → Bool) → Bool
    starts [] p = false
    starts (a ∷ []) p = false
    starts (a ∷ b ∷ bs) p = p a b

-- The endpoint that the body of the inner loop makes of an entry, `none` for its `continue`s.
unfoldable pub observed_endpoint : DiscoveredEntry → Option Text
unfolding is_loopback is_link_local_unicast
observed_endpoint entry = if is_empty entry.ip then none else elim entry.port [
  | negsuc n ↦ none
  | pos zero ↦ none
  | pos (suc n) ↦ elim (parse_ip entry.ip) [
    | none ↦ none
    | some ip ↦
        if is_loopback ip || is_link_local_unicast ip
        then none
        else some (join_host_port entry.ip (format_uint (suc n)))
  ]
]

-- The inner loop: the first occurrence of a key wins.
unfoldable pub add_entries : List (Text × Text) → List (Text × DiscoveredEntry) → List (Text × Text)
unfolding observed_endpoint get_key set_key
add_entries result [] = result
add_entries result ((pub_key, entry) ∷ entries) = elim (observed_endpoint entry) [
  | none ↦ add_entries result entries
  | some endpoint ↦ elim (get_key pub_key result) [
    | some seen ↦ add_entries result entries
    | none ↦ add_entries (set_key pub_key endpoint result) entries
  ]
]

-- The entries of a node's annotation, none if it is missing, empty or malformed.
unfoldable pub node_entries : Decoder → Node → List (Text × DiscoveredEntry)
unfolding source
node_entries decode node = elim (source annotation_discovered_endpoints node) [
  | none ↦ []
  | some raw ↦ elim (decode raw) [ none ↦ [] | some entries ↦ entries ]
]

-- The outer loop.
unfoldable pub add_nodes : Decoder → List (Text × Text) → List Node → List (Text × Text)
unfolding add_entries node_entries
add_nodes decode result [] = result
add_nodes decode result (node ∷ nodes) =
    add_nodes decode (add_entries result (node_entries decode node)) nodes

-- `DiscoveredEndpointsByKey`, from what its list call returned: the map as its lookup.
unfoldable pub discovered_endpoints_by_key :
    Decoder → Option (List Node) → Option (Text → Option Text)
unfolding add_nodes
discovered_endpoints_by_key decode none = none
discovered_endpoints_by_key decode (some nodes) =
    some (λ pub_key. get_key pub_key (add_nodes decode [] nodes))
