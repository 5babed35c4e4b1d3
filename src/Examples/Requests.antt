-- ===== src/Examples/Requests.antt =====
-- `Reconcile` of the controller on the two clusters.
use kilo_clustermesh_operato.Base.{◌≡◌, ◌↔◌, refl, sym, subst, true, none, some, [], codes, In}
use kilo_clustermesh_operato.Base.Result.{ok, ok-eq-ok}
use kilo_clustermesh_operato.Api.{ClusterEntry}
use kilo_clustermesh_operato.Validation.Mesh.{
  validate_mesh_networks, validate_each, validate_cluster_networks, parse_clusters, check_overlaps,
  check_against, conflicts, parse_meshes, check_mesh_pairs, check_mesh_against,
}
use kilo_clustermesh_operato.Netutil.{cidr_overlaps}
use kilo_clustermesh_operato.Api.{all_cidrs}
use kilo_clustermesh_operato.Controller.Objects.{ClusterMeshReconciler, MeshClient, MeshObject}
use kilo_clustermesh_operato.Controller.Requests.{Request}
use kilo_clustermesh_operato.Controller.Statuses.{IsWaiting}
use kilo_clustermesh_operato.Controller.Reconcile.{find_overlap, reconcile, select_result}
use kilo_clustermesh_operato.Controller.Requeue.{
  IsLive, KeepsStatus, MayWrite, reconcile-requeues, reconcile-guarded,
}
use kilo_clustermesh_operato.Examples.Fixtures.{mesh_1}
use kilo_clustermesh_operato.Examples.Fleet.{Fleet, find_in, controller_of}
use kilo_clustermesh_operato.Examples.Clusters.{
  object_1, api, world, controller, fleet, ports, nodes_of_a,
}
use kilo_clustermesh_operato.Go.Net.HostPort.{split_host_port}
use kilo_clustermesh_operato.Go.Strings.{has_char}
use kilo_clustermesh_operato.Peer.Naming.{name}
use kilo_clustermesh_operato.Controller.Sources.{is_bootstrapping}
use kilo_clustermesh_operato.Base.{str_eq, str_lt, lookup, get_key}
use kilo_clustermesh_operato.Peer.Naming.{labels}
use kilo_clustermesh_operato.Peer.Reconciler.Client.{matches}
use kilo_clustermesh_operato.Peer.Reconciler.Maps.{build_map, lookup_peer, add_all, set_peer}
use kilo_clustermesh_operato.Peer.Reconciler.{
  reconcile_peers, canonical_peers, canonical_of, reconcile_desired, reconcile_one, peer_spec_equal,
  delete_orphans, delete_one, allowed_ips_equal, create_or_merge, create_reported, endpoint_equal,
  insert_sorted, keep_lowest, report, sort_strings, texts_equal,
}
use kilo_clustermesh_operato.Controller.Push.{
  push_desired, push_to_client, push_to_target, push_to_targets, reconciled,
}
use kilo_clustermesh_operato.Controller.Enrich.{enrich_endpoints}
use kilo_clustermesh_operato.Kilonode.Discovered.{discovered_endpoints_by_key}
use kilo_clustermesh_operato.Controller.Sources.{
  reconcile_source, reconcile_sources, reconcile_all_clusters,
}
use kilo_clustermesh_operato.Multicluster.Registry.{client_of}
use kilo_clustermesh_operato.Examples.Store.{
  selected, serve_update, serve_create, serve_delete, remove_peer,
}
use kilo_clustermesh_operato.Controller.Push.{push_peers_to_targets}
use kilo_clustermesh_operato.Controller.Desired.{build_desired_peers}
use kilo_clustermesh_operato.Controller.Nodes.{filter_nodes}
use kilo_clustermesh_operato.Validation.Node.{find_duplicate_wgips}
use kilo_clustermesh_operato.Kilonode.{source}
use kilo_clustermesh_operato.Validation.Node.{validate_node}
use kilo_clustermesh_operato.Validation.Node.{validate_pod_cidr}
use kilo_clustermesh_operato.Netutil.{parse_cidr}
use kilo_clustermesh_operato.Validation.Node.{some_network}
use kilo_clustermesh_operato.Netutil.{cidr_contains}
use kilo_clustermesh_operato.Go.Net.Address.{contains}
use kilo_clustermesh_operato.Validation.Node.{validate_wireguard_ip}
use kilo_clustermesh_operato.Netutil.{parse_host_in_cidr}
use kilo_clustermesh_operato.Validation.Node.{validate_public_key}
use kilo_clustermesh_operato.Validation.Node.{validate_endpoint}
use kilo_clustermesh_operato.Kilonode.{resolve_endpoint}
use kilo_clustermesh_operato.Peer.Builder.{build_peer}
use kilo_clustermesh_operato.Base.{value_at}
use kilo_clustermesh_operato.Peer.Builder.{resolve_peer_endpoint}
use kilo_clustermesh_operato.Kilonode.{resolve_from_external_ips}
use kilo_clustermesh_operato.Go.Net.Parse.{parse_ip}
use kilo_clustermesh_operato.Go.Strings.{cut_last}
use kilo_clustermesh_operato.Go.Net.HostPort.{join_host_port}
use kilo_clustermesh_operato.Go.Strconv.{format_uint}
use kilo_clustermesh_operato.Go.Strconv.{parse_uint}
use kilo_clustermesh_operato.Peer.Naming.{sanitize_dns}
use kilo_clustermesh_operato.Go.Strings.{trim_right}
use kilo_clustermesh_operato.Controller.Desired.{mesh_persistent_keepalive}

abbrev request_1 : Request
request_1 = record { namespace = codes "kilo"; name = codes "m1" }

live : IsLive controller request_1 object_1 world
live = (refl, refl, refl)

disjoint : find_overlap controller mesh_1 world ≡ none
unfolding find_overlap validate_mesh_networks validate_each validate_cluster_networks parse_clusters
    all_cidrs parse_cidr check_overlaps check_against conflicts cidr_overlaps contains parse_meshes
    check_mesh_pairs check_mesh_against str_eq
disjoint = refl

run_fine : (reconcile controller request_1 world).2 ≡ none
unfolding reconcile find_overlap validate_mesh_networks validate_each validate_cluster_networks
    parse_clusters all_cidrs check_overlaps check_against conflicts cidr_overlaps parse_meshes
    check_mesh_pairs check_mesh_against reconcile_all_clusters reconcile_sources reconcile_source
    client_of get_key str_eq push_peers_to_targets build_desired_peers filter_nodes
    find_duplicate_wgips source lookup validate_node validate_pod_cidr parse_cidr some_network
    cidr_contains contains validate_wireguard_ip parse_host_in_cidr validate_public_key
    validate_endpoint resolve_endpoint build_peer value_at resolve_peer_endpoint
    resolve_from_external_ips parse_ip cut_last join_host_port format_uint parse_uint
    push_to_targets push_to_target push_to_client push_desired reconciled reconcile_peers
    reconcile_desired build_map reconcile_one lookup_peer selected matches labels peer_spec_equal
    serve_update canonical_of canonical_peers serve_create delete_orphans delete_one serve_delete
    str_lt remove_peer add_all set_peer allowed_ips_equal create_or_merge create_reported
    endpoint_equal insert_sorted keep_lowest report sort_strings texts_equal enrich_endpoints
    discovered_endpoints_by_key split_host_port has_char name is_bootstrapping sanitize_dns
    trim_right mesh_persistent_keepalive
run_fine = refl

reconcile-requeues_example :
    ((select_result
          (reconcile controller request_1 world).1
          (reconcile controller request_1 world).2
        ≡ ok 30)
      ↔ ((e : ClusterEntry) × In e mesh_1.spec.clusters × IsWaiting controller world e))
    × (((e : ClusterEntry) → In e mesh_1.spec.clusters → IsWaiting controller world e → ⊥)
        → select_result
            (reconcile controller request_1 world).1
            (reconcile controller request_1 world).2
          ≡ ok 300)
reconcile-requeues_example =
    reconcile-requeues controller find_in fleet request_1 object_1 world ports live disjoint
      run_fine

-- The mesh before its finalizer is added.
abbrev new_api : MeshClient Fleet
new_api = record api { get = λ request w. ok (record object_1 { finalizers = [] }) }

abbrev beginner : ClusterMeshReconciler Fleet
beginner = controller_of new_api nodes_of_a (some [])

abbrev KeptInB : Fleet → Type 0
KeptInB w =
    find_in (codes "b") w (codes "m1--a--n1") ≡ find_in (codes "b") world (codes "m1--a--n1")

kept_status : KeepsStatus beginner KeptInB
kept_status = record { updates = λ obj w h. h; status_updates = λ obj w h. h }

unmarked : (obj : MeshObject) → MayWrite beginner request_1 world obj → ⊥
unmarked obj (found, marked, _) = cc (
    subst
      (λ x. beginner.libraries.contains_finalizer "kilo-clustermesh.io/cleanup" x.finalizers ≡ true)
      (sym (ok-eq-ok _ _ found)) marked)

reconcile-guarded_example : KeptInB (reconcile beginner request_1 world).0
reconcile-guarded_example =
    reconcile-guarded beginner KeptInB request_1 world kept_status unmarked refl
