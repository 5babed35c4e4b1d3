-- ===== src/Examples/Clusters.antt =====
-- The controller's theorems on two clusters in memory.
use kilo_clustermesh_operato.Go.Net.HostPort.{split_host_port}
use kilo_clustermesh_operato.Go.Strings.{has_char}
use kilo_clustermesh_operato.Peer.Naming.{name}
use kilo_clustermesh_operato.Controller.Sources.{is_bootstrapping}
use kilo_clustermesh_operato.Base.{
  ne_of_str_eq-false, ◌≡◌, ◌≢◌, ◌<◌, ◌^◌, refl, inl, inr, true, false, Option, none, some, List, [],
  ◌∷◌, Text, codes, In, str_eq, str_lt, lookup, arith, get_key,
}
use kilo_clustermesh_operato.Base.Result.{ok, err}
use kilo_clustermesh_operato.Api.{Node, Peer, ClusterEntry, ClusterStatus}
use kilo_clustermesh_operato.Peer.Naming.{labels}
use kilo_clustermesh_operato.Peer.Reconciler.Client.{matches}
use kilo_clustermesh_operato.Peer.Reconciler.Maps.{build_map, lookup_peer, add_all, set_peer}
use kilo_clustermesh_operato.Peer.Reconciler.Converge.{VisitsAll}
use kilo_clustermesh_operato.Peer.Reconciler.{
  reconcile_peers, canonical_peers, canonical_of, reconcile_desired, reconcile_one, peer_spec_equal,
  delete_orphans, delete_one, allowed_ips_equal, create_or_merge, create_reported, endpoint_equal,
  insert_sorted, keep_lowest, report, sort_strings, texts_equal,
}
use kilo_clustermesh_operato.Controller.Objects.{
  ClusterClient, ClusterMeshReconciler, listing_nodes, MeshClient, MeshObject,
}
use kilo_clustermesh_operato.Controller.Push.{
  push_desired, push_to_client, push_to_target, push_to_targets, reconciled,
}
use kilo_clustermesh_operato.Controller.Enrich.{enrich_endpoints}
use kilo_clustermesh_operato.Kilonode.Discovered.{discovered_endpoints_by_key}
use kilo_clustermesh_operato.Controller.Frame.{IsFleet}
use kilo_clustermesh_operato.Controller.Sources.{
  Progress, reconcile_source, reconcile_sources, reconcile_all_clusters,
}
use kilo_clustermesh_operato.Controller.Cleanup.{
  warn, delete_pair, delete_from_targets, delete_sources, delete_mesh_peers,
}
use kilo_clustermesh_operato.Multicluster.Registry.{client_of}
use kilo_clustermesh_operato.Controller.Frame.{reconcile_all_clusters-frame}
use kilo_clustermesh_operato.Controller.Deletion.{delete_mesh_peers_clears}
use kilo_clustermesh_operato.Controller.Statuses.{
  IsCallFailure, AccountsFor, reconcile_all_clusters-IsCallFailure, reconcile_all_clusters-statuses,
}
use kilo_clustermesh_operato.Examples.Fixtures.{mesh_1, node_1, node_2}
use kilo_clustermesh_operato.Examples.Store.{
  selected, serve_update, serve_create, serve_delete, remove_peer, server_of,
}
use kilo_clustermesh_operato.Examples.Fleet.{Fleet, find_in, controller_of, controller-IsFleet}
use kilo_clustermesh_operato.Controller.Push.{push_peers_to_targets}
use kilo_clustermesh_operato.Controller.Desired.{build_desired_peers}
use kilo_clustermesh_operato.Controller.Nodes.{filter_nodes}
use kilo_clustermesh_operato.Validation.Node.{find_duplicate_wgips}
use kilo_clustermesh_operato.Kilonode.{source}
use kilo_clustermesh_operato.Validation.Node.{validate_node}
use kilo_clustermesh_operato.Validation.Node.{validate_pod_cidr}
use kilo_clustermesh_operato.Netutil.{parse_cidr}
use kilo_clustermesh_operato.Validation.Node.{some_network}
use kilo_clustermesh_operato.Netutil.{cidr_contains}
use kilo_clustermesh_operato.Go.Net.Address.{contains}
use kilo_clustermesh_operato.Validation.Node.{validate_wireguard_ip}
use kilo_clustermesh_operato.Netutil.{parse_host_in_cidr}
use kilo_clustermesh_operato.Validation.Node.{validate_public_key}
use kilo_clustermesh_operato.Validation.Node.{validate_endpoint}
use kilo_clustermesh_operato.Kilonode.{resolve_endpoint}
use kilo_clustermesh_operato.Peer.Builder.{build_peer}
use kilo_clustermesh_operato.Base.{value_at}
use kilo_clustermesh_operato.Peer.Builder.{resolve_peer_endpoint}
use kilo_clustermesh_operato.Kilonode.{resolve_from_external_ips}
use kilo_clustermesh_operato.Go.Net.Parse.{parse_ip}
use kilo_clustermesh_operato.Go.Strings.{cut_last}
use kilo_clustermesh_operato.Go.Net.HostPort.{join_host_port}
use kilo_clustermesh_operato.Go.Strconv.{format_uint}
use kilo_clustermesh_operato.Go.Strconv.{parse_uint}
use kilo_clustermesh_operato.Peer.Naming.{sanitize_dns}
use kilo_clustermesh_operato.Go.Strings.{trim_right}
use kilo_clustermesh_operato.Controller.Desired.{mesh_persistent_keepalive}
use kilo_clustermesh_operato.Examples.Sync.{peer_of}

abbrev pub object_1 : MeshObject
object_1 = record {
  mesh = mesh_1;
  generation = 1;
  deleting = false;
  finalizers = "kilo-clustermesh.io/cleanup" ∷ [];
  clusters = [];
  conditions = [];
}

abbrev pub api : MeshClient Fleet
api = record {
  get = λ request w. ok object_1;
  list = λ w. some (mesh_1 ∷ []);
  list_in = λ namespace w. some (mesh_1 ∷ []);
  update = λ obj w. (w, none);
  status_update = λ obj w. (w, none);
}

abbrev pub from_a : Peer
from_a = peer_of "m1--a--n1" (labels (codes "m1") (codes "a")) "k1" "10.1.4.0/24"

abbrev pub from_b : Peer
from_b = peer_of "m1--b--n9" (labels (codes "m1") (codes "b")) "k9" "10.2.4.0/24"

-- Each cluster holds a peer of the other.
abbrev pub world : Fleet
world = (server_of (from_b ∷ []), server_of (from_a ∷ []))

abbrev pub controller : ClusterMeshReconciler Fleet
controller = controller_of api (some (node_1 ∷ node_2 ∷ [])) (some [])

pub visits_all : VisitsAll controller.visit
visits_all = record { same = λ m e. (λ i. i, λ i. i); once = λ m d. d }

outside : (t : ClusterEntry) → In t mesh_1.spec.clusters → t.name ≢ codes "c"
unfolding str_eq
outside t (inl e) = rw e (ne_of_str_eq-false (codes "a") (codes "c") refl)
outside t (inr (inl e)) = rw e (ne_of_str_eq-false (codes "b") (codes "c") refl)
outside t (inr (inr i)) = absurd i

reconcile_all_clusters-frame_example :
    find_in (codes "c") (reconcile_all_clusters controller mesh_1 world).0 (codes "m1--a--n1")
    ≡ find_in (codes "c") world (codes "m1--a--n1")
reconcile_all_clusters-frame_example =
    reconcile_all_clusters-frame controller find_in
      (controller-IsFleet api (some (node_1 ∷ node_2 ∷ [])) (some [])) mesh_1 world (codes "c")
      outside (codes "m1--a--n1")

deletion_quiet : (delete_mesh_peers controller mesh_1 world).1 ≡ []
unfolding delete_mesh_peers delete_sources delete_from_targets delete_pair client_of get_key
    reconcile_peers reconcile_desired build_map lookup_peer selected matches labels delete_orphans
    delete_one serve_delete str_lt remove_peer add_all set_peer report lookup str_eq warn
deletion_quiet = refl

delete_mesh_peers_clears_example :
    ((s t : ClusterEntry)
      → In s mesh_1.spec.clusters
      → In t mesh_1.spec.clusters
      → t.name ≢ s.name
      → (k : Text) (p : Peer)
      → find_in t.name (delete_mesh_peers controller mesh_1 world).0 k ≡ some p
      → matches (labels mesh_1.name s.name) p.labels ≡ false)
    × ((m k : Text) (p : Peer)
        → find_in m (delete_mesh_peers controller mesh_1 world).0 k ≡ some p
        → find_in m world k ≡ some p)
delete_mesh_peers_clears_example =
    delete_mesh_peers_clears controller find_in mesh_1 world
      (controller-IsFleet api (some (node_1 ∷ node_2 ∷ [])) (some [])) visits_all deletion_quiet

-- A controller that cannot list the nodes of the first cluster.
abbrev blind : ClusterMeshReconciler Fleet
blind = controller_of api none (some [])

blind_fails : (reconcile_all_clusters blind mesh_1 world).1 ≡ err (listing_nodes (codes "a"))
unfolding reconcile_all_clusters reconcile_sources reconcile_source client_of get_key str_eq
blind_fails = refl

pub ports : (e : ClusterEntry) → In e mesh_1.spec.clusters → e.wireguard_port < 2 ^ 16
ports e (inl h) = rw h (omega arith)
ports e (inr (inl h)) = rw h (omega arith)
ports e (inr (inr i)) = absurd i

reconcile_all_clusters-IsCallFailure_example : IsCallFailure (listing_nodes (codes "a"))
reconcile_all_clusters-IsCallFailure_example =
    reconcile_all_clusters-IsCallFailure blind find_in (controller-IsFleet api none (some []))
      mesh_1 ports world (listing_nodes (codes "a")) blind_fails

abbrev progress : Progress
progress = record {
  statuses =
      record { name = codes "a"; registered_peers = 1; skipped_nodes = 1 }
      ∷ record { name = codes "b"; registered_peers = 0; skipped_nodes = 0 }
      ∷ [];
  incomplete = true;
}

run_progress : (reconcile_all_clusters controller mesh_1 world).1 ≡ ok progress
unfolding reconcile_all_clusters reconcile_sources reconcile_source client_of get_key str_eq
    push_peers_to_targets build_desired_peers filter_nodes find_duplicate_wgips source lookup
    validate_node validate_pod_cidr parse_cidr some_network cidr_contains contains
    validate_wireguard_ip parse_host_in_cidr validate_public_key validate_endpoint resolve_endpoint
    build_peer value_at resolve_peer_endpoint resolve_from_external_ips parse_ip cut_last
    join_host_port format_uint parse_uint push_to_targets push_to_target push_to_client push_desired
    reconciled reconcile_peers reconcile_desired build_map reconcile_one lookup_peer selected
    matches labels peer_spec_equal serve_update canonical_of canonical_peers serve_create
    delete_orphans delete_one serve_delete str_lt remove_peer add_all set_peer allowed_ips_equal
    create_or_merge create_reported endpoint_equal insert_sorted keep_lowest report sort_strings
    texts_equal enrich_endpoints discovered_endpoints_by_key split_host_port has_char name
    is_bootstrapping sanitize_dns trim_right mesh_persistent_keepalive
run_progress = refl

reconcile_all_clusters-statuses_example :
    ((st : ClusterStatus)
      → In st progress.statuses
      → (e : ClusterEntry) × In e mesh_1.spec.clusters × AccountsFor controller world e st)
    × ((e : ClusterEntry) (c : ClusterClient Fleet)
        → In e mesh_1.spec.clusters
        → client_of controller.registry e.name ≡ some c
        → (st : ClusterStatus) × In st progress.statuses × AccountsFor controller world e st)
reconcile_all_clusters-statuses_example =
    reconcile_all_clusters-statuses controller find_in
      (controller-IsFleet api (some (node_1 ∷ node_2 ∷ [])) (some [])) mesh_1 ports world progress
      run_progress

abbrev pub nodes_of_a : Option (List Node)
nodes_of_a = some (node_1 ∷ node_2 ∷ [])

pub fleet : IsFleet controller find_in
fleet = controller-IsFleet api nodes_of_a (some [])
