-- ===== src/Examples/Theorems.antt =====
-- The theorems applied to the mesh and the nodes of the fixtures.
use kilo_clustermesh_operato.Base.{
  ◌≡◌, ◌≢◌, ◌↔◌, ◌≤◌, ◌⊎◌, refl, true, Option, none, some, List, [], ◌∷◌, Text, codes, In, AllPairs,
  All, length, arith, lookup, str_eq, value_at,
}
use kilo_clustermesh_operato.Base.Result.{ok}
use kilo_clustermesh_operato.Api.{ClusterMesh, Peer, all_cidrs}
use kilo_clustermesh_operato.Go.Net.Address.{Ip, IpNet, contains}
use kilo_clustermesh_operato.Go.Net.Address.{short_form, to4}
use kilo_clustermesh_operato.Netutil.{parse_cidr, parse_host_in_cidr, cidr_overlaps, cidr_contains}
use kilo_clustermesh_operato.Netutil.Overlap.{cidr_overlaps_iff}
use kilo_clustermesh_operato.Netutil.Containment.{cidr_contains_sound}
use kilo_clustermesh_operato.Go.Net.Parse.{parse_ip}
use kilo_clustermesh_operato.Go.Net.HostPort.{join_host_port}
use kilo_clustermesh_operato.Go.Strconv.{format_uint}
use kilo_clustermesh_operato.Kilonode.{
  resolve_from_external_ips, resolve_endpoint, source, annotation_wireguard_ip,
  annotation_public_key,
}
use kilo_clustermesh_operato.Kilonode.Endpoint.{HasPort, resolve_endpoint-HasPort}
use kilo_clustermesh_operato.Validation.Mesh.{
  validate_mesh_networks, validate_cluster_networks, validate_each, parse_clusters, check_overlaps,
  check_against, conflicts, parse_meshes, check_mesh_pairs, check_mesh_against,
}
use kilo_clustermesh_operato.Validation.Mesh.Disjoint.{
  IsDisjoint, parsed-IsNet, validate_cluster_networks_iff,
}
use kilo_clustermesh_operato.Validation.Mesh.Parsed.{Parses, networks_of}
use kilo_clustermesh_operato.Validation.Mesh.CrossMesh.{AreSeparate, validate_mesh_networks_sound}
use kilo_clustermesh_operato.Validation.Node.{
  validate_node, validate_pod_cidr, some_network, validate_wireguard_ip, validate_public_key,
  validate_endpoint, find_duplicate_wgips,
}
use kilo_clustermesh_operato.Validation.Node.Accepted.{
  HasPodCidr, HasWireguardIp, validate_node_iff,
}
use kilo_clustermesh_operato.Peer.Naming.{name, max_name_length}
use kilo_clustermesh_operato.Peer.Naming.Bounds.{length-name}
use kilo_clustermesh_operato.Peer.Naming.Collisions.{name-joined}
use kilo_clustermesh_operato.Peer.Builder.{build_peer, dedupe_strings, collect_anchor_cidrs}
use kilo_clustermesh_operato.Peer.Builder.Valid.{HasValidPort, validated_node-gets_peer}
use kilo_clustermesh_operato.Peer.Builder.Anchors.{IsUncovered, collect_anchor_cidrs_iff}
use kilo_clustermesh_operato.Peer.Builder.Routes.{
  RouteOf, dedupe_strings-members, build_peer-allowed_ips,
}
use kilo_clustermesh_operato.Peer.Reconciler.{merge_allowed_ips}
use kilo_clustermesh_operato.Peer.Reconciler.Merge.{merge_allowed_ips-union}
use kilo_clustermesh_operato.Base.{if◌then◌else◌}
use kilo_clustermesh_operato.Controller.Enrich.{enrich_peer}
use kilo_clustermesh_operato.Controller.Enrich.Preserves.{Enriches, enrich_peer-Enriches}
use kilo_clustermesh_operato.Api.{ClusterEntry, Node}
use kilo_clustermesh_operato.Controller.Desired.{mesh_persistent_keepalive}
use kilo_clustermesh_operato.Controller.Desired.Keepalive.{mesh_persistent_keepalive_greatest}
use kilo_clustermesh_operato.Controller.Requests.{
  Request, node_to_mesh_requests, node_to_mesh_requests_iff,
}
use kilo_clustermesh_operato.Controller.Nodes.Keys.{
  AddressesDiffer, filter_nodes-distinct_addresses,
}
use kilo_clustermesh_operato.Controller.Nodes.{filter_nodes}
use kilo_clustermesh_operato.Controller.Nodes.Counts.{Accounts, filter_nodes-Accounts}
use kilo_clustermesh_operato.Controller.Desired.{build_desired_peers}
use kilo_clustermesh_operato.Controller.Desired.Complete.{filtered_nodes-get_peers}
use kilo_clustermesh_operato.Examples.Fixtures.{entry_a, mesh_1, mesh_2, node_1, node_2, ascii}

abbrev meshes : List ClusterMesh
meshes = mesh_1 ∷ mesh_2 ∷ []

meshes_accepted : validate_mesh_networks meshes ≡ none
unfolding validate_mesh_networks validate_each validate_cluster_networks parse_clusters all_cidrs
    parse_cidr check_overlaps check_against conflicts cidr_overlaps contains parse_meshes
    check_mesh_pairs check_mesh_against str_eq
meshes_accepted = refl

validate_mesh_networks_sound_example :
    All (λ m. validate_cluster_networks m.spec.clusters ≡ none) meshes × AllPairs AreSeparate meshes
validate_mesh_networks_sound_example = validate_mesh_networks_sound meshes meshes_accepted

validate_cluster_networks_iff_example : (validate_cluster_networks mesh_1.spec.clusters ≡ none) ↔ (
    (nets : List IpNet) × Parses (networks_of mesh_1.spec.clusters) nets × AllPairs IsDisjoint nets)
validate_cluster_networks_iff_example = validate_cluster_networks_iff mesh_1.spec.clusters

node_accepted : validate_node node_1 entry_a ≡ none
unfolding validate_node validate_pod_cidr parse_cidr some_network cidr_contains contains
    validate_wireguard_ip source lookup parse_host_in_cidr validate_public_key validate_endpoint
    resolve_endpoint
node_accepted = refl

validate_node_iff_example : (validate_node node_1 entry_a ≡ none) ↔ (
    HasPodCidr node_1.pod_cidrs entry_a
    × HasWireguardIp node_1 entry_a
    × ((key : Text) × (source annotation_public_key node_1 ≡ some key))
    × ((found : Option Text) × (resolve_endpoint node_1 entry_a.wireguard_port ≡ ok found)))
validate_node_iff_example = validate_node_iff node_1 entry_a

validated_node-gets_peer_example :
    (p : Peer) × (build_peer ascii (codes "m1") entry_a node_1 [] 25 ≡ ok p)
    × HasValidPort p.spec.endpoint
validated_node-gets_peer_example =
    validated_node-gets_peer ascii (codes "m1") entry_a node_1 [] 25 (omega arith) node_accepted

endpoint_found : resolve_endpoint node_1 51820 ≡ ok (some (codes "192.0.2.1:51820"))
unfolding resolve_endpoint lookup resolve_from_external_ips parse_ip to4 join_host_port format_uint
endpoint_found = refl

resolve_endpoint-HasPort_example : HasPort (codes "192.0.2.1:51820")
resolve_endpoint-HasPort_example =
    resolve_endpoint-HasPort node_1 51820 (codes "192.0.2.1:51820") (omega arith) endpoint_found

abbrev wide : IpNet
wide = record { ip = 10 ∷ 1 ∷ 0 ∷ 0 ∷ []; mask = 255 ∷ 255 ∷ 0 ∷ 0 ∷ [] }

abbrev narrow : IpNet
narrow = record { ip = 10 ∷ 1 ∷ 4 ∷ 0 ∷ []; mask = 255 ∷ 255 ∷ 255 ∷ 0 ∷ [] }

wide_parsed : parse_cidr (codes "10.1.0.0/16") ≡ some wide
unfolding parse_cidr
wide_parsed = refl

narrow_parsed : parse_cidr (codes "10.1.4.0/24") ≡ some narrow
unfolding parse_cidr
narrow_parsed = refl

cidr_overlaps_iff_example :
    (cidr_overlaps wide narrow ≡ true)
    ↔ ((x : Ip) × (contains wide x ≡ true) × (contains narrow x ≡ true))
cidr_overlaps_iff_example =
    cidr_overlaps_iff wide narrow (parsed-IsNet (codes "10.1.0.0/16") wide wide_parsed)
      (parsed-IsNet (codes "10.1.4.0/24") narrow narrow_parsed)

narrow_contained : cidr_contains wide narrow ≡ true
unfolding cidr_contains contains
narrow_contained = refl

address_contained : contains narrow (10 ∷ 1 ∷ 4 ∷ 7 ∷ []) ≡ true
unfolding contains
address_contained = refl

narrow_short : short_form narrow.ip ≡ narrow.ip
unfolding short_form
narrow_short = refl

cidr_contains_sound_example : contains wide (10 ∷ 1 ∷ 4 ∷ 7 ∷ []) ≡ true
cidr_contains_sound_example =
    cidr_contains_sound wide narrow (parsed-IsNet (codes "10.1.0.0/16") wide wide_parsed)
      (parsed-IsNet (codes "10.1.4.0/24") narrow narrow_parsed) narrow_short narrow_contained
      (10 ∷ 1 ∷ 4 ∷ 7 ∷ []) address_contained

build_peer-allowed_ips_example :
    (pod_cidr : Text) × (rest : List Text) × (host : Ip × IpNet) × (node_1.pod_cidrs
      ≡ pod_cidr ∷ rest)
    × (parse_host_in_cidr (value_at annotation_wireguard_ip node_1.annotations) ≡ some host)
    × ((x : Text)
        → In x validated_node-gets_peer_example.0.spec.allowed_ips
          ↔ RouteOf ascii (codes "m1") entry_a node_1 [] 25 x pod_cidr host.0)
    × AllPairs (λ s t. s ≢ t) validated_node-gets_peer_example.0.spec.allowed_ips
build_peer-allowed_ips_example =
    build_peer-allowed_ips ascii (codes "m1") entry_a node_1 [] 25
      validated_node-gets_peer_example.0 validated_node-gets_peer_example.1

filter_nodes-Accounts_example :
    Accounts
      (find_duplicate_wgips (node_1 ∷ node_2 ∷ []))
      entry_a
      (node_1 ∷ node_2 ∷ [])
      (filter_nodes (node_1 ∷ node_2 ∷ []) entry_a)
filter_nodes-Accounts_example = filter_nodes-Accounts (node_1 ∷ node_2 ∷ []) entry_a

filtered_nodes-get_peers_example :
    (peers : List Peer) × (build_desired_peers ascii
        (codes "m1")
        entry_a
        (filter_nodes (node_1 ∷ node_2 ∷ []) entry_a).valid
        25
      ≡ ok peers)
    × (length peers ≡ length (filter_nodes (node_1 ∷ node_2 ∷ []) entry_a).valid)
    × All (λ p. HasValidPort p.spec.endpoint) peers
filtered_nodes-get_peers_example =
    filtered_nodes-get_peers ascii (codes "m1") entry_a 25 (omega arith) (node_1 ∷ node_2 ∷ [])

merge_allowed_ips-union_example :
    ((x : Text)
      → In x (merge_allowed_ips (codes "b" ∷ codes "a" ∷ []) (codes "a" ∷ []))
        ↔ (In x (codes "b" ∷ codes "a" ∷ []) ⊎ In x (codes "a" ∷ [])))
    × AllPairs (λ s t. s ≢ t) (merge_allowed_ips (codes "b" ∷ codes "a" ∷ []) (codes "a" ∷ []))
merge_allowed_ips-union_example =
    merge_allowed_ips-union (codes "b" ∷ codes "a" ∷ []) (codes "a" ∷ [])

collect_anchor_cidrs_iff_example :
    In (codes "10.96.0.0/16") (collect_anchor_cidrs entry_a (node_1 ∷ [])) ↔ (
      In (codes "10.96.0.0/16") entry_a.allowed_networks
      × IsUncovered (node_1 ∷ []) (codes "10.96.0.0/16"))
collect_anchor_cidrs_iff_example =
    collect_anchor_cidrs_iff entry_a (node_1 ∷ []) (codes "10.96.0.0/16")

length-name_example : length (name ascii (codes "m1") (codes "a") (codes "n1")) ≤ max_name_length
length-name_example = length-name ascii (λ s. refl) (codes "m1") (codes "a") (codes "n1")

dedupe_strings-members_example :
    ((x : Text)
      → In x (dedupe_strings (codes "a" ∷ codes "a" ∷ [])) ↔ In x (codes "a" ∷ codes "a" ∷ []))
    × AllPairs (λ s t. s ≢ t) (dedupe_strings (codes "a" ∷ codes "a" ∷ []))
dedupe_strings-members_example = dedupe_strings-members (codes "a" ∷ codes "a" ∷ [])

abbrev observed : Text → Option Text
observed key = if str_eq key (codes "k1") then some (codes "203.0.113.9:41000") else none

enrich_peer-Enriches_example :
    Enriches observed validated_node-gets_peer_example.0
      (enrich_peer observed validated_node-gets_peer_example.0)
enrich_peer-Enriches_example = enrich_peer-Enriches observed validated_node-gets_peer_example.0

mesh_persistent_keepalive_greatest_example :
    ((c : ClusterEntry)
      → In c mesh_1.spec.clusters
      → c.persistent_keepalive ≤ mesh_persistent_keepalive mesh_1.spec.clusters)
    × ((mesh_persistent_keepalive mesh_1.spec.clusters ≡ 0)
        ⊎ ((c : ClusterEntry) × In c mesh_1.spec.clusters
            × (c.persistent_keepalive ≡ mesh_persistent_keepalive mesh_1.spec.clusters)))
mesh_persistent_keepalive_greatest_example = mesh_persistent_keepalive_greatest mesh_1.spec.clusters

abbrev request_1 : Request
request_1 = record { namespace = codes "kilo"; name = codes "m1" }

node_to_mesh_requests_iff_example :
    In request_1 (node_to_mesh_requests (codes "a") (some meshes)) ↔ (
      (m : ClusterMesh) × In m meshes
      × (request_1 ≡ record { namespace = m.namespace; name = m.name })
      × ((e : ClusterEntry) × In e m.spec.clusters × (e.name ≡ codes "a")))
node_to_mesh_requests_iff_example = node_to_mesh_requests_iff (codes "a") meshes request_1

-- A node that claims the address of the first.
abbrev node_3 : Node
node_3 = record node_1 { name = codes "n3" }

filter_nodes-distinct_addresses_example :
    AllPairs AddressesDiffer (filter_nodes (node_1 ∷ node_3 ∷ node_2 ∷ []) entry_a).valid
filter_nodes-distinct_addresses_example =
    filter_nodes-distinct_addresses (node_1 ∷ node_3 ∷ node_2 ∷ []) entry_a

name-joined_example :
    name ascii (codes "a") (codes "b--c") (codes "n1")
    ≡ name ascii (codes "a--b") (codes "c") (codes "n1")
name-joined_example = name-joined ascii (codes "a") (codes "b") (codes "c") (codes "n1")
