-- ===== src/Examples/Sweeps.antt =====
-- The two sweeps on the server of the reconciliation run: no source and no mesh is left.
use kilo_clustermesh_operato.Base.{
  ◌≡◌, refl, ◌⊎◌, true, false, none, some, List, [], ◌∷◌, Text, codes, str_eq, lookup, value_at, In,
}
use kilo_clustermesh_operato.Api.{Peer, ClusterMesh}
use kilo_clustermesh_operato.Kilonode.{is_empty}
use kilo_clustermesh_operato.Peer.Naming.{label_source_cluster, label_mesh, labels}
use kilo_clustermesh_operato.Peer.Reconciler.{delete_where, delete_stale_source_clusters}
use kilo_clustermesh_operato.Peer.Reconciler.Client.{matches}
use kilo_clustermesh_operato.Peer.Reconciler.Maps.{build_map, lookup_peer}
use kilo_clustermesh_operato.Peer.Reconciler.Sweep.{delete_stale_source_clusters_sweeps}
use kilo_clustermesh_operato.Controller.Orphans.{living_meshes, sweep_orphan_peers}
use kilo_clustermesh_operato.Controller.Orphans.Swept.{HasMesh, sweep_orphan_peers_sweeps}
use kilo_clustermesh_operato.Examples.Fixtures.{mesh_2}
use kilo_clustermesh_operato.Examples.Store.{
  find, server, server-IsPeerStore, selected, serve_delete, remove_peer,
}
use kilo_clustermesh_operato.Examples.Sync.{before, peer_of, of_source}

stale_errors : (delete_stale_source_clusters server (codes "m") (codes "a" ∷ []) before).1 ≡ []
unfolding delete_stale_source_clusters selected build_map str_eq matches lookup labels value_at
    serve_delete lookup_peer remove_peer
stale_errors = refl

delete_stale_source_clusters_sweeps_example :
    ((p : Peer)
      → find before p.name ≡ some p
      → matches ((label_mesh, codes "m") ∷ []) p.labels ≡ true
      → (In (value_at label_source_cluster p.labels) (codes "a" ∷ []) → ⊥)
      → find (delete_stale_source_clusters server (codes "m") (codes "a" ∷ []) before).0 p.name
        ≡ none)
    × ((k : Text)
        → ((p : Peer)
            → find before k ≡ some p
            → matches ((label_mesh, codes "m") ∷ []) p.labels ≡ true
            → In (value_at label_source_cluster p.labels) (codes "a" ∷ []))
        → find (delete_stale_source_clusters server (codes "m") (codes "a" ∷ []) before).0 k
          ≡ find before k)
delete_stale_source_clusters_sweeps_example =
    delete_stale_source_clusters_sweeps server find server-IsPeerStore (codes "m") (codes "a" ∷ [])
      before stale_errors

abbrev living : List ClusterMesh
living = mesh_2 ∷ []

abbrev ghost : Peer
ghost = peer_of "m--b--n0" of_source "k0" "10.0.1.0/24"

orphan_warnings : (sweep_orphan_peers server (living_meshes living) before).1 ≡ []
unfolding sweep_orphan_peers delete_where selected build_map str_eq matches value_at lookup labels
    living_meshes serve_delete lookup_peer remove_peer
orphan_warnings = refl

ghost_there : find before ghost.name ≡ some ghost
unfolding lookup_peer build_map str_eq
ghost_there = refl

sweep_orphan_peers_sweeps_example :
    ((is_empty (value_at label_mesh ghost.labels) ≡ false)
      → (HasMesh living ghost → ⊥)
      → find (sweep_orphan_peers server (living_meshes living) before).0 ghost.name ≡ none)
    × (((is_empty (value_at label_mesh ghost.labels) ≡ true) ⊎ HasMesh living ghost)
        → find (sweep_orphan_peers server (living_meshes living) before).0 ghost.name ≡ some ghost)
sweep_orphan_peers_sweeps_example =
    sweep_orphan_peers_sweeps server find server-IsPeerStore living before orphan_warnings ghost
      ghost_there
