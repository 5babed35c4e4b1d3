-- ===== src/Examples/Cleanup.antt =====
-- The cleanups on the two clusters.
use kilo_clustermesh_operato.Base.{
  ◌≡◌, refl, true, some, [], ◌∷◌, codes, get_key, lookup, str_eq, value_at,
}
use kilo_clustermesh_operato.Api.{Peer}
use kilo_clustermesh_operato.Multicluster.Registry.{client_of, cluster_names}
use kilo_clustermesh_operato.Peer.Naming.{labels, label_mesh, label_source_cluster}
use kilo_clustermesh_operato.Peer.Reconciler.Client.{matches}
use kilo_clustermesh_operato.Peer.Reconciler.{delete_stale_source_clusters}
use kilo_clustermesh_operato.Controller.Objects.{ClusterClient}
use kilo_clustermesh_operato.Controller.Cleanup.{cleanup_stale_source_clusters}
use kilo_clustermesh_operato.Controller.Swept.{HasCluster, cleanup_stale_source_clusters_sweeps}
use kilo_clustermesh_operato.Controller.Cleanup.{cleanup_orphan_mesh_peers}
use kilo_clustermesh_operato.Controller.Swept.Orphans.{IsOwned, cleanup_orphan_mesh_peers_sweeps}
use kilo_clustermesh_operato.Examples.Fixtures.{mesh_1}
use kilo_clustermesh_operato.Examples.Store.{server_of}
use kilo_clustermesh_operato.Examples.Sync.{peer_of}
use kilo_clustermesh_operato.Examples.Fleet.{Fleet, find_in}
use kilo_clustermesh_operato.Examples.Store.{selected}
use kilo_clustermesh_operato.Peer.Reconciler.Maps.{build_map}
use kilo_clustermesh_operato.Examples.Store.{serve_delete}
use kilo_clustermesh_operato.Peer.Reconciler.Maps.{lookup_peer}
use kilo_clustermesh_operato.Examples.Store.{remove_peer}
use kilo_clustermesh_operato.Controller.Orphans.{sweep_orphan_peers}
use kilo_clustermesh_operato.Peer.Reconciler.{delete_where}
use kilo_clustermesh_operato.Controller.Orphans.{living_meshes}
use kilo_clustermesh_operato.Examples.Clusters.{controller, fleet, from_a, from_b}

-- A peer whose source cluster has left the mesh.
abbrev from_z : Peer
from_z = peer_of "m1--z--n1" (labels (codes "m1") (codes "z")) "k7" "10.7.4.0/24"

abbrev stale_world : Fleet
stale_world = (server_of (from_b ∷ []), server_of (from_z ∷ from_a ∷ []))

cleanup_quiet : (cleanup_stale_source_clusters controller mesh_1 stale_world).1 ≡ []
unfolding cleanup_stale_source_clusters cluster_names client_of get_key str_eq
    delete_stale_source_clusters selected build_map matches lookup labels value_at serve_delete
    lookup_peer
cleanup_quiet = refl

survivor :
    find_in
      (codes "b")
      (cleanup_stale_source_clusters controller mesh_1 stale_world).0
      (codes "m1--a--n1")
    ≡ some from_a
unfolding cleanup_stale_source_clusters find_in str_eq lookup_peer cluster_names client_of get_key
    delete_stale_source_clusters selected build_map matches lookup labels value_at serve_delete
    remove_peer
survivor = refl

cleanup_stale_source_clusters_sweeps_example :
    (find_in (codes "b") stale_world (codes "m1--a--n1") ≡ some from_a)
    × ((c : ClusterClient Fleet)
        → client_of controller.registry (codes "b") ≡ some c
        → matches ((label_mesh, mesh_1.name) ∷ []) from_a.labels ≡ true
        → HasCluster mesh_1 (codes "b")
          × HasCluster mesh_1 (value_at label_source_cluster from_a.labels))
cleanup_stale_source_clusters_sweeps_example =
    cleanup_stale_source_clusters_sweeps controller find_in fleet mesh_1 stale_world (λ n i. i)
      cleanup_quiet (codes "b") (codes "m1--a--n1") from_a survivor

-- A peer of a mesh that is gone.
abbrev ghost : Peer
ghost = peer_of "m9--a--n1" (labels (codes "m9") (codes "a")) "k5" "10.5.4.0/24"

abbrev haunted : Fleet
haunted = (server_of (from_b ∷ []), server_of (ghost ∷ from_a ∷ []))

sweep_quiet : (cleanup_orphan_mesh_peers controller haunted).1 ≡ []
unfolding cleanup_orphan_mesh_peers cluster_names client_of get_key str_eq sweep_orphan_peers
    delete_where selected build_map matches value_at lookup labels living_meshes serve_delete
    lookup_peer
sweep_quiet = refl

spared :
    find_in (codes "b") (cleanup_orphan_mesh_peers controller haunted).0 (codes "m1--a--n1")
    ≡ some from_a
unfolding cleanup_orphan_mesh_peers find_in str_eq lookup_peer cluster_names client_of get_key
    sweep_orphan_peers delete_where selected build_map matches value_at lookup labels living_meshes
    serve_delete remove_peer
spared = refl

cleanup_orphan_mesh_peers_sweeps_example :
    (find_in (codes "b") haunted (codes "m1--a--n1") ≡ some from_a)
    × ((c : ClusterClient Fleet)
        → client_of controller.registry (codes "b") ≡ some c
        → IsOwned (mesh_1 ∷ []) from_a)
cleanup_orphan_mesh_peers_sweeps_example =
    cleanup_orphan_mesh_peers_sweeps controller find_in (mesh_1 ∷ []) haunted fleet refl (λ n i. i)
      sweep_quiet (codes "b") (codes "m1--a--n1") from_a spared
