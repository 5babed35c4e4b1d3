-- ===== src/Examples/Registry.antt =====
-- The registry, the discovered endpoints and the change watcher on concrete inputs.
use kilo_clustermesh_operato.Base.{
  ne_of_str_eq-false, ◌≡◌, ◌↔◌, ◌<◌, refl, inl, inr, true, false, Option, none, some, List, [], ◌∷◌,
  String, Text, codes, In, AllPairs, str_eq, str_lt, arith, if◌then◌else◌, ◌&&◌,
}
use kilo_clustermesh_operato.Api.{ClusterMesh, ClusterEntry, Node}
use kilo_clustermesh_operato.Kilonode.Discovered.{
  DiscoveredEntry, pos, Decoder, annotation_discovered_endpoints, observed_endpoint,
  discovered_endpoints_by_key,
}
use kilo_clustermesh_operato.Go.Net.HostPort.{join_host_port}
use kilo_clustermesh_operato.Go.Net.Parse.{parse_ip}
use kilo_clustermesh_operato.Go.Strconv.{format_uint}
use kilo_clustermesh_operato.Go.Strings.{has_char}
use kilo_clustermesh_operato.Go.Net.HostPort.RoundTrip.{IsUnbracketed}
use kilo_clustermesh_operato.Controller.Enrich.{parse_discovered_endpoint}
use kilo_clustermesh_operato.Controller.Enrich.RoundTrip.{
  parse_discovered_endpoint-observed_endpoint,
}
use kilo_clustermesh_operato.Multicluster.Registry.{
  Environment, ClusterRegistry, merge_cluster_entries, build_initial_registry, client_of, build,
}
use kilo_clustermesh_operato.Multicluster.Registry.Merged.{
  NameDiffers, first_named, first_entry, merge_cluster_entries-first,
}
use kilo_clustermesh_operato.Multicluster.Registry.Built.{
  IsClusterOf, build_initial_registry-client_of,
}
use kilo_clustermesh_operato.Controller.Requests.{Request}
use kilo_clustermesh_operato.Restart.Watcher.{
  collect_refs, SecretVersions, ChangeWatcher, watch, ClusterRef, secret_to_cluster_mesh,
  compute_fingerprint,
}
use kilo_clustermesh_operato.Restart.Watcher.Fingerprint.{HasNoCollision, watch-cancels_iff}
use kilo_clustermesh_operato.Restart.Watcher.Refs.{EntryNamesDiffer, entries_of, IsRef}
use kilo_clustermesh_operato.Restart.Watcher.Secrets.{RefersTo, secret_to_cluster_mesh_iff}
use kilo_clustermesh_operato.Examples.Sorting.{sort_refs, tools, tools-IsSort}
use kilo_clustermesh_operato.Examples.Fixtures.{mesh_1, mesh_2, entry_a, entry_b, node_1, node_2}

-- The second cluster with its kubeconfig.
abbrev remote : ClusterEntry
remote = record entry_b {
  kubeconfig_secret_ref = some (record { name = codes "b-kubeconfig"; key = codes "value" });
}

abbrev both_meshes : List ClusterMesh
both_meshes = record mesh_1 { spec = record { clusters = entry_a ∷ remote ∷ [] } } ∷ mesh_2 ∷ []

merge_cluster_entries-first_example :
    ((n : Text) → first_named n (merge_cluster_entries both_meshes) ≡ first_entry n both_meshes)
    × AllPairs NameDiffers (merge_cluster_entries both_meshes)
merge_cluster_entries-first_example = merge_cluster_entries-first both_meshes

abbrev environment : Environment Text Text
environment = record {
  secret_data = λ namespace name.
      if str_eq namespace (codes "kilo") && str_eq name (codes "b-kubeconfig")
      then some ((codes "value", codes "https://b.example") ∷ [])
      else none;
  parse_kubeconfig = λ kubeconfig. some kubeconfig;
  new_cluster = λ config. some config;
  local_config = codes "https://a.example";
}

abbrev built : ClusterRegistry Text
built = build environment (merge_cluster_entries both_meshes)

built_from : build_initial_registry environment (some both_meshes) ≡ some built
unfolding build_initial_registry
built_from = refl

build_initial_registry-client_of_example :
    (client_of built (codes "b") ≡ some (codes "https://b.example"))
    ↔ IsClusterOf environment both_meshes (codes "b") (codes "https://b.example")
build_initial_registry-client_of_example =
    build_initial_registry-client_of environment both_meshes built (codes "b")
      (codes "https://b.example") built_from

-- An annotation with two observations of a key, the first of a loopback address.
abbrev decoder : Decoder
decoder raw = some (
    (codes "k9", record { ip = codes "127.0.0.1"; port = pos 51820 })
    ∷ (codes "k9", record { ip = codes "203.0.113.9"; port = pos 41000 })
    ∷ [])

abbrev observer : Node
observer = record node_1 { annotations = (annotation_discovered_endpoints, codes "{}") ∷ [] }

discovered : Text → Option Text
discovered = elim (discovered_endpoints_by_key decoder (some (observer ∷ node_2 ∷ []))) [
  | some f ↦ f
  | none ↦ λ k. none
]

abbrev seen_entry : DiscoveredEntry
seen_entry = record { ip = codes "203.0.113.9"; port = pos 41000 }

seen_text : observed_endpoint seen_entry ≡ some (codes "203.0.113.9:41000")
unfolding observed_endpoint parse_ip join_host_port format_uint
seen_text = refl

plain : IsUnbracketed seen_entry.ip
unfolding has_char
plain = record { no_left = refl; no_right = refl }

parse_discovered_endpoint-observed_endpoint_example :
    (0 < 41000)
    × (parse_discovered_endpoint (codes "203.0.113.9:41000")
        ≡ some (record { dns_or_ip = record { dns = []; ip = codes "203.0.113.9" }; port = 41000 }))
parse_discovered_endpoint-observed_endpoint_example =
    parse_discovered_endpoint-observed_endpoint seen_entry (codes "203.0.113.9:41000") 41000
      seen_text refl (omega arith) plain

abbrev request_1 : Request
request_1 = record { namespace = codes "kilo"; name = codes "m1" }

secret_to_cluster_mesh_iff_example :
    In request_1 (secret_to_cluster_mesh (codes "b-kubeconfig") (some both_meshes)) ↔ (
      (m : ClusterMesh) × In m both_meshes
      × (request_1 ≡ record { namespace = m.namespace; name = m.name })
      × ((c : ClusterEntry) × In c m.spec.clusters × RefersTo (codes "b-kubeconfig") c))
secret_to_cluster_mesh_iff_example =
    secret_to_cluster_mesh_iff (codes "b-kubeconfig") both_meshes request_1

-- The version of every secret.
abbrev versions : String → SecretVersions
versions version = λ namespace name. some (codes version)

-- The cluster "b" and the mesh of both clusters.
abbrev mesh_3 : ClusterMesh
mesh_3 = record mesh_1 { spec = record { clusters = remote ∷ entry_a ∷ [] } }

abbrev watcher : ChangeWatcher
watcher = record {
  can_cancel = true;
  start_fingerprint = tools.digest (collect_refs tools (versions "1") (mesh_3 ∷ []));
}

names_differ : AllPairs EntryNamesDiffer (entries_of (mesh_3 ∷ []))
unfolding str_eq
names_differ = (
  (λ y i. elim i [
    | inl same ↦ rw same (ne_of_str_eq-false (codes "b") (codes "a") refl)
    | inr out ↦ absurd out
  ]),
  (λ y i. absurd i, tt),
)

digests_differ :
    HasNoCollision tools
      (collect_refs tools (versions "2") (mesh_3 ∷ []))
      (collect_refs tools (versions "1") (mesh_3 ∷ []))
unfolding collect_refs str_eq sort_refs str_lt
digests_differ e = absurd (
    ne_of_str_eq-false (tools.digest (collect_refs tools (versions "2") (mesh_3 ∷ [])))
      (tools.digest (collect_refs tools (versions "1") (mesh_3 ∷ []))) refl e)

started :
    compute_fingerprint tools (versions "1") (some (mesh_3 ∷ [])) ≡ some watcher.start_fingerprint
unfolding compute_fingerprint
started = refl

watch-cancels_iff_example :
    (((watch tools (versions "2") watcher (some (mesh_3 ∷ []))).cancelled ≡ true) ↔ (
      ((x : ClusterRef)
        → IsRef (versions "2") (mesh_3 ∷ []) x ↔ IsRef (versions "1") (mesh_3 ∷ []) x)
      → ⊥))
    × ((watch tools (versions "2") watcher (some (mesh_3 ∷ []))).failed ≡ false)
watch-cancels_iff_example =
    watch-cancels_iff tools tools-IsSort watcher (versions "1") (versions "2") (mesh_3 ∷ [])
      (mesh_3 ∷ []) digests_differ names_differ names_differ refl started
