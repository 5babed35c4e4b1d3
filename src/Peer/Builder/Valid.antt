-- ===== src/Peer/Builder/Valid.antt =====
-- `ValidateNode` of internal/validation/node.go and `BuildPeer` of internal/peer/builder.go together.
use Prim.Native.Nat.{max}
use kilo_clustermesh_operato.Base.{
  ℕ, ◌<◌, ◌^◌, ◌≡◌, refl, inl, inr, false, Option, none, some, List, [], ◌∷◌, ◌++◌, String, Text,
  arith, Option-cases, lookup, value_at,
}
use kilo_clustermesh_operato.Base.Result.{ok, Result-cases}
use kilo_clustermesh_operato.Api.{Node, ClusterEntry, Peer, PeerEndpoint}
use kilo_clustermesh_operato.Netutil.{parse_host_in_cidr, host_route}
use kilo_clustermesh_operato.Go.Net.Address.{Ip, IpNet}
use kilo_clustermesh_operato.Go.Strconv.Laws.{parse_uint_mono, parse_uint-inv}
use kilo_clustermesh_operato.Kilonode.{
  source, is_empty, resolve_endpoint, annotation_public_key, annotation_wireguard_ip,
}
use kilo_clustermesh_operato.Kilonode.Endpoint.{HasPort, resolve_endpoint-HasPort}
use kilo_clustermesh_operato.Validation.Node.{
  validate_node, validate_pod_cidr, validate_wireguard_ip, validate_public_key, validate_endpoint,
  NodeSkipReason, ◌or_else◌,
}
use kilo_clustermesh_operato.Peer.Naming.{Platform, name, labels}
use kilo_clustermesh_operato.Peer.Builder.{
  build_peer, parse_endpoint, resolve_peer_endpoint, build_dns_or_ip, head?, dedupe_strings,
  own_host_routes,
}

-- The endpoint of a peer, if it has one, has a port from 1 to 65535.
abbrev pub HasValidPort : Option PeerEndpoint → Type 0
HasValidPort none = Unit
HasValidPort (some e) = (0 < e.port) × (e.port < 2 ^ 16)

parse_endpoint-HasPort :
    (s : Text) → HasPort s → (e : PeerEndpoint) × (parse_endpoint s ≡ ok e) × HasValidPort (some e)
unfolding parse_endpoint
parse_endpoint-HasPort s h =
    let (_, _, _, bound) = parse_uint-inv 16 h.port_str h.port h.value in
    let wide = parse_uint_mono 16 32 h.port_str h.port (omega arith) h.value in
    (
      record { dns_or_ip = build_dns_or_ip h.host; port = h.port },
      rw (h.parts, wide) refl,
      (h.positive, bound),
    )

-- An endpoint that `ResolveEndpoint` finds is parsed without an error.
resolve_peer_endpoint_total :
    (node : Node) (port : ℕ) (found : Option Text)
    → port < 2 ^ 16
    → resolve_endpoint node port ≡ ok found
    → (e : Option PeerEndpoint) × (resolve_peer_endpoint node port ≡ ok e) × HasValidPort e
unfolding resolve_peer_endpoint
resolve_peer_endpoint_total node port none bound h = (none, rw h refl, tt)
resolve_peer_endpoint_total node port (some s) bound h =
    let (e, parsed, valid) =
      parse_endpoint-HasPort s (resolve_endpoint-HasPort node port s bound h) in
    (some e, rw (h, parsed) refl, valid)

-- An annotation that is present and not empty reads the same through the map.
value_at-source :
    (key : String) (node : Node) (v : Text)
    → source key node ≡ some v
    → (value_at key node.annotations ≡ v) × (is_empty v ≡ false)
unfolding source value_at
value_at-source key node v e = elim (Option-cases (lookup key node.annotations)) [
  | inl h ↦ cc (rw (h, source) at e)
  | inr (w, h) ↦ ground arith
]

-- What an accepted node has.
record IsEligible (node : Node) (entry : ClusterEntry) : Type 0 where
  pod_cidr : Text
  pods : head? node.pod_cidrs ≡ some pod_cidr
  wg_ip : Text
  annotated : source annotation_wireguard_ip node ≡ some wg_ip
  host : Ip × IpNet
  parsed : parse_host_in_cidr wg_ip ≡ some host
  key : Text
  keyed : source annotation_public_key node ≡ some key
  found : Option Text
  resolved : resolve_endpoint node entry.wireguard_port ≡ ok found

pod_cidr-eligible :
    (cidrs : List Text) (entry : ClusterEntry)
    → validate_pod_cidr cidrs entry ≡ none
    → (s : Text) × (head? cidrs ≡ some s)
unfolding validate_pod_cidr
pod_cidr-eligible [] entry e = cc
pod_cidr-eligible (s ∷ ss) entry e = (s, refl)

wireguard_ip-eligible :
    (node : Node) (entry : ClusterEntry)
    → validate_wireguard_ip node entry ≡ none
    → (wg_ip : Text) × (source annotation_wireguard_ip node ≡ some wg_ip)
      × (host : Ip × IpNet) × (parse_host_in_cidr wg_ip ≡ some host)
unfolding validate_wireguard_ip
wireguard_ip-eligible node entry e = elim (Option-cases (source annotation_wireguard_ip node)) [
  | inl h ↦ cc (rw (h, validate_wireguard_ip) at e)
  | inr (wg_ip, h) ↦ elim (Option-cases (parse_host_in_cidr wg_ip)) [
    | inl k ↦ cc (rw (h, k, validate_wireguard_ip) at e)
    | inr (host, k) ↦ (wg_ip, h, host, k)
  ]
]

public_key-eligible :
    (node : Node)
    → validate_public_key node ≡ none
    → (key : Text) × (source annotation_public_key node ≡ some key)
unfolding validate_public_key
public_key-eligible node e = elim (Option-cases (source annotation_public_key node)) [
  | inl h ↦ cc (rw (h, validate_public_key) at e)
  | inr found ↦ found
]

endpoint-eligible :
    (node : Node) (entry : ClusterEntry)
    → validate_endpoint node entry ≡ none
    → (found : Option Text) × (resolve_endpoint node entry.wireguard_port ≡ ok found)
unfolding validate_endpoint
endpoint-eligible node entry e = elim (Result-cases (resolve_endpoint node entry.wireguard_port)) [
  | inl found ↦ found
  | inr (x, h) ↦ cc (rw (h, validate_endpoint) at e)
]

pub or_else-eq-none : (a b : Option NodeSkipReason) → (a or_else b) ≡ none → (a ≡ none) × (b ≡ none)
or_else-eq-none none b e = (refl, e)
or_else-eq-none (some r) b e = cc

validate_node-IsEligible :
    (node : Node) (entry : ClusterEntry) → validate_node node entry ≡ none → IsEligible node entry
unfolding validate_node
validate_node-IsEligible node entry e =
    let (e1, r1) = or_else-eq-none (validate_pod_cidr node.pod_cidrs entry) _ e in
    let (e2, r2) = or_else-eq-none (validate_wireguard_ip node entry) _ r1 in
    let (e3, e4) = or_else-eq-none (validate_public_key node) _ r2 in
    let (pod_cidr, pods) = pod_cidr-eligible node.pod_cidrs entry e1 in
    let (wg_ip, annotated, host, parsed) = wireguard_ip-eligible node entry e2 in
    let (key, keyed) = public_key-eligible node e3 in
    let (found, resolved) = endpoint-eligible node entry e4 in
    record {
      pod_cidr = pod_cidr;
      pods = pods;
      wg_ip = wg_ip;
      annotated = annotated;
      host = host;
      parsed = parsed;
      key = key;
      keyed = keyed;
      found = found;
      resolved = resolved;
    }

module _ (os : Platform) (mesh_name : Text) (entry : ClusterEntry) (node : Node)
    (extras : List Text) (keepalive : ℕ) where
  build_peer-eligible :
      (v : IsEligible node entry)
      → entry.wireguard_port < 2 ^ 16
      → (p : Peer) × (build_peer os mesh_name entry node extras keepalive ≡ ok p)
        × HasValidPort p.spec.endpoint
        × (p.spec.public_key ≡ v.key)
  unfolding build_peer
  build_peer-eligible v bound =
      let (key_value, key_full) = value_at-source annotation_public_key node v.key v.keyed in
      let (wg_value, wg_full) = value_at-source annotation_wireguard_ip node v.wg_ip v.annotated in
      let (endpoint, built, valid) =
        resolve_peer_endpoint_total node entry.wireguard_port v.found bound v.resolved in
      (
        record {
          name = name os mesh_name entry.name node.name;
          labels = labels mesh_name entry.name;
          spec = record {
            allowed_ips =
                dedupe_strings
                  (v.pod_cidr ∷ host_route v.host.0 ∷ own_host_routes node.addresses ++ extras);
            endpoint = endpoint;
            persistent_keepalive = max entry.persistent_keepalive keepalive;
            preshared_key = [];
            public_key = v.key;
          };
        },
        rw (key_value, wg_value, key_full, wg_full, v.parsed, v.pods, built) refl,
        valid,
        refl,
      )

  -- A node that `ValidateNode` accepts for an entry with a 16-bit port gets a peer from
  -- `BuildPeer`, whatever the mesh, the extra networks and the keepalive; the port of the peer's
  -- endpoint, if it has one, is from 1 to 65535.
  pub validated_node-gets_peer :
      entry.wireguard_port < 2 ^ 16
      → validate_node node entry ≡ none
      → (p : Peer) × (build_peer os mesh_name entry node extras keepalive ≡ ok p)
        × HasValidPort p.spec.endpoint
  validated_node-gets_peer bound e =
      let (p, built, valid, _) =
        build_peer-eligible (validate_node-IsEligible node entry e) bound in
      (p, built, valid)
