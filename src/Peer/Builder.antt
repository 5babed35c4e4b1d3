-- ===== src/Peer/Builder.antt =====
-- internal/peer/builder.go: the Peer of a validated node, and the networks that one node carries
-- for the whole cluster.
pub mod Valid
pub mod Covered
pub mod Routes
pub mod Anchors
use Prim.Native.Nat.{max}
use kilo_clustermesh_operato.Base.{
  ℕ, zero, suc, ◌≤◌, Bool, true, false, ◌&&◌, ◌||◌, not, Option, none, some, List, [], ◌∷◌, ◌++◌,
  String, ◌==◌, if◌then◌else◌, Text, lookup, value_at, leb, str_eq, any, codes,
}
use kilo_clustermesh_operato.Base.Result.{Result, ok, err, guard, or_fail, wrap, ◌>>=◌, ◌>>◌}
use kilo_clustermesh_operato.Api.{
  Node, NodeAddress, AddressType, hostname, internal_ip, external_ip, internal_dns, external_dns,
  ClusterEntry, Peer, PeerSpec, PeerEndpoint, DnsOrIp,
}
use kilo_clustermesh_operato.Netutil.{parse_cidr, parse_host_in_cidr, cidr_contains, host_route}
use kilo_clustermesh_operato.Go.Net.Address.{Ip, IpNet, contains}
use kilo_clustermesh_operato.Go.Net.Parse.{parse_ip}
use kilo_clustermesh_operato.Go.Strings.{cut_last, trim_left, trim_right}
use kilo_clustermesh_operato.Go.Strconv.{parse_uint}
use kilo_clustermesh_operato.Kilonode.{
  annotation_wireguard_ip, annotation_public_key, resolve_endpoint, EndpointError, is_empty,
}
use kilo_clustermesh_operato.Peer.Naming.{Platform, name, labels}

-- The errors of `BuildPeer`, each with the node's name.
pub data BuildError : Type 0 where
  no_public_key no_wireguard_ip no_pod_cidrs : Text → BuildError
  invalid_wireguard_ip : Text → Text → BuildError
  resolving_endpoint : Text → EndpointError → BuildError
  invalid_endpoint_format invalid_endpoint_port : Text → BuildError

-- The set `[]` of `strings.Trim`.
abbrev is_bracket : ℕ → Bool
is_bracket c = c == b'[' || c == b']'

-- `buildDNSOrIP`
unfoldable pub build_dns_or_ip : Text → DnsOrIp
build_dns_or_ip host =
    let clean_host = trim_right is_bracket (trim_left is_bracket host) in
    elim (parse_ip clean_host) [
      | some ip ↦ record { dns = []; ip = clean_host }
      | none ↦ record { dns = clean_host; ip = [] }
    ]

-- `parseEndpoint`
unfoldable pub parse_endpoint : Text → Result BuildError PeerEndpoint
parse_endpoint raw = do
  (host, port_str) ← or_fail (cut_last b':' raw) (invalid_endpoint_format raw)
  port ← or_fail (parse_uint 32 port_str) (invalid_endpoint_port raw)
  ok (record { dns_or_ip = build_dns_or_ip host; port = port })

-- `resolvePeerEndpoint`: `ok none` is a roaming peer.
unfoldable pub resolve_peer_endpoint : Node → ℕ → Result BuildError (Option PeerEndpoint)
unfolding parse_endpoint
resolve_peer_endpoint node fallback_port = do
  found ← wrap (resolving_endpoint node.name) (resolve_endpoint node fallback_port)
  elim found [
    | none ↦ ok none
    | some endpoint_str ↦ parse_endpoint endpoint_str >>= λ e. ok (some e)
  ]

-- The loop of `dedupeStrings`.
unfoldable pub dedupe_from : List Text → List Text → List Text
dedupe_from seen [] = []
dedupe_from seen (route ∷ routes) =
    let skipped = dedupe_from seen routes in
    let kept = route ∷ dedupe_from (route ∷ seen) routes in
    if any (str_eq route) seen then skipped else kept

-- `dedupeStrings`
unfoldable pub dedupe_strings : List Text → List Text
unfolding dedupe_from
dedupe_strings routes = dedupe_from [] routes

-- `addr.Type != corev1.NodeInternalIP`
abbrev pub is_internal_ip : AddressType → Bool
is_internal_ip internal_ip = true
is_internal_ip _ = false

-- `nodeOwnInternalIPHostRoutes`
unfoldable pub own_host_routes : List NodeAddress → List Text
own_host_routes [] = []
own_host_routes (a ∷ addrs) =
    if is_internal_ip a.kind
    then elim (parse_ip a.address) [
      | none ↦ own_host_routes addrs
      | some ip ↦ host_route ip ∷ own_host_routes addrs
    ]
    else own_host_routes addrs

-- `node.Spec.PodCIDRs[0]` behind the test of the length.
abbrev pub head? : List Text → Option Text
head? [] = none
head? (s ∷ ss) = some s

-- `BuildPeer`
unfoldable pub build_peer :
    Platform → Text → ClusterEntry → Node → List Text → ℕ → Result BuildError Peer
build_peer os mesh_name entry node extra_allowed_ips mesh_keepalive = do
  let pub_key = value_at annotation_public_key node.annotations
  guard (if is_empty pub_key then false else true) (no_public_key node.name)
  let wg_ip = value_at annotation_wireguard_ip node.annotations
  guard (if is_empty wg_ip then false else true) (no_wireguard_ip node.name)
  (host_ip, network) ← or_fail (parse_host_in_cidr wg_ip) (invalid_wireguard_ip node.name wg_ip)
  pod_cidr ← or_fail (head? node.pod_cidrs) (no_pod_cidrs node.name)
  let allowed_ips =
      dedupe_strings
        (pod_cidr ∷ host_route host_ip ∷ own_host_routes node.addresses ++ extra_allowed_ips)
  endpoint ← resolve_peer_endpoint node entry.wireguard_port
  ok (record {
    name = name os mesh_name entry.name node.name;
    labels = labels mesh_name entry.name;
    spec = record {
      allowed_ips = allowed_ips;
      endpoint = endpoint;
      persistent_keepalive = max entry.persistent_keepalive mesh_keepalive;
      preshared_key = [];
      public_key = pub_key;
    };
  })

-- One address of the loop of `nodeCoversNetwork`.
address_in : IpNet → NodeAddress → Bool
address_in network a =
    if is_internal_ip a.kind
    then elim (parse_ip a.address) [ none ↦ false | some ip ↦ contains network ip ]
    else false

-- The wireguard-ip annotation at the end of `nodeCoversNetwork`.
wireguard_ip_in : IpNet → Text → Bool
wireguard_ip_in network wg_ip = if is_empty wg_ip then false else elim (parse_host_in_cidr wg_ip) [
  | none ↦ false
  | some (host_ip, net) ↦ contains network host_ip
]

pod_cidr_in : IpNet → List Text → Bool
pod_cidr_in network [] = false
pod_cidr_in network (s ∷ ss) = elim (parse_cidr s) [
  | none ↦ false
  | some node_cidr ↦ cidr_contains network node_cidr
]

-- `nodeCoversNetwork`
unfoldable pub node_covers_network : IpNet → Node → Bool
unfolding address_in wireguard_ip_in pod_cidr_in
node_covers_network network node =
    pod_cidr_in network node.pod_cidrs
    || any (address_in network) node.addresses
    || wireguard_ip_in network (value_at annotation_wireguard_ip node.annotations)

-- `networkCoveredByAnyNode`
unfoldable pub network_covered_by_any_node : IpNet → List Node → Bool
unfolding node_covers_network
network_covered_by_any_node network nodes = any (node_covers_network network) nodes

-- The loop of `CollectAnchorCIDRs`.
unfoldable pub residual : List Text → List Node → List Text
residual [] nodes = []
residual (s ∷ ss) nodes = elim (parse_cidr s) [
  | none ↦ s ∷ residual ss nodes
  | some network ↦
      if network_covered_by_any_node network nodes then residual ss nodes else s ∷ residual ss nodes
]

-- `CollectAnchorCIDRs`
unfoldable pub collect_anchor_cidrs : ClusterEntry → List Node → List Text
unfolding residual
collect_anchor_cidrs entry nodes = residual entry.allowed_networks nodes
