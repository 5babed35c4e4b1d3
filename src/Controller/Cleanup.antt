-- ===== src/Controller/Cleanup.antt =====
-- The removals of internal/controller/clustermesh_controller.go: `handleDeletion`,
-- `cleanupStaleSourceClusters` and `cleanupOrphanMeshPeers`. Their failures are logged and passed
-- over; the warnings are the list returned. A deadline that ends a sweep is a call that fails.
use kilo_clustermesh_operato.Base.{
  Option, none, some, List, [], ◌∷◌, ◌++◌, String, Text, str_eq, any, map, if◌then◌else◌,
}
use kilo_clustermesh_operato.Api.{ClusterMesh, ClusterEntry}
use kilo_clustermesh_operato.Multicluster.Registry.{client_of, cluster_names}
use kilo_clustermesh_operato.Peer.Reconciler.{
  ReconcileError, reconcile_peers, delete_stale_source_clusters,
}
use kilo_clustermesh_operato.Peer.Reconciler.Client.{ApiError}
use kilo_clustermesh_operato.Controller.Orphans.{living_meshes, sweep_orphan_peers}
use kilo_clustermesh_operato.Controller.Objects.{
  ClusterMeshReconciler, ClusterClient, MeshObject, ControllerError, removing_finalizer,
}

abbrev pub finalizer_name : String
finalizer_name = "kilo-clustermesh.io/cleanup"

-- What is logged.
pub data Warning : Type 0 where
  not_in_registry : Text → Warning
  deleting_peers : Text → Text → List ReconcileError → Warning
  sweeping : Text → List ReconcileError → Warning
  listing_meshes : Warning

unfoldable pub warn : (List ReconcileError → Warning) → List ReconcileError → List Warning
warn f [] = []
warn f (e ∷ es) = f (e ∷ es) ∷ []

-- The error of a call, wrapped.
unfoldable pub failed_with : ControllerError → Option ApiError → Option ControllerError
failed_with e none = none
failed_with e (some cause) = some e

-- `validSources`, or none for a cluster that is not in the mesh.
unfoldable pub sources_for : ClusterMesh → Text → List Text
sources_for mesh name =
    let valid = map (λ e. e.name) mesh.spec.clusters in
    if any (str_eq name) valid then valid else []

module _ {W : Type 0} (r : ClusterMeshReconciler W) where
  -- One round of the inner loop of `handleDeletion`.
  unfoldable pub delete_pair : Text → ClusterEntry → ClusterEntry → W → W × List Warning
  unfolding warn
  delete_pair mesh_name source target w =
      if str_eq target.name source.name then (w, []) else elim (client_of r.registry target.name) [
        | none ↦ (w, not_in_registry target.name ∷ [])
        | some c ↦
            let (w', errs) = reconcile_peers c.peers r.visit mesh_name source.name [] w in
            (w', warn (deleting_peers source.name target.name) errs)
      ]

  unfoldable pub delete_from_targets :
      Text → ClusterEntry → List ClusterEntry → W → W × List Warning
  unfolding delete_pair
  delete_from_targets mesh_name source [] w = (w, [])
  delete_from_targets mesh_name source (target ∷ targets) w =
      let (w', here) = delete_pair mesh_name source target w in
      let (w'', rest) = delete_from_targets mesh_name source targets w' in (w'', here ++ rest)

  -- The outer loop.
  unfoldable pub delete_sources :
      Text → List ClusterEntry → List ClusterEntry → W → W × List Warning
  unfolding delete_from_targets
  delete_sources mesh_name targets [] w = (w, [])
  delete_sources mesh_name targets (source ∷ sources) w =
      let (w', here) = delete_from_targets mesh_name source targets w in
      let (w'', rest) = delete_sources mesh_name targets sources w' in (w'', here ++ rest)

  -- The loops of `handleDeletion`.
  unfoldable pub delete_mesh_peers : ClusterMesh → W → W × List Warning
  unfolding delete_sources
  delete_mesh_peers mesh w = delete_sources mesh.name mesh.spec.clusters mesh.spec.clusters w

  -- `handleDeletion`
  unfoldable pub handle_deletion : MeshObject → W → W × Option ControllerError
  unfolding delete_mesh_peers failed_with
  handle_deletion obj w =
      if r.libraries.contains_finalizer finalizer_name obj.finalizers
      then (let (w', warnings) = delete_mesh_peers obj.mesh w in
          let (w'', e) =
            r.client.update
              (record obj {
                finalizers = r.libraries.remove_finalizer finalizer_name obj.finalizers;
              })
              w' in
          (w'', failed_with removing_finalizer e))
      else (w, none)

  -- The loop over the clusters of the registry, of both cleanups: a name without a client is skipped.
  unfoldable pub sweep_clusters :
      (Text → ClusterClient W → W → W × List ReconcileError) → List Text → W → W × List Warning
  unfolding warn
  sweep_clusters sweep [] w = (w, [])
  sweep_clusters sweep (name ∷ names) w = elim (client_of r.registry name) [
    | none ↦ sweep_clusters sweep names w
    | some c ↦
        let (w', errs) = sweep name c w in
        let (w'', rest) = sweep_clusters sweep names w' in (w'', warn (sweeping name) errs ++ rest)
  ]

  -- `cleanupStaleSourceClusters`
  unfoldable pub cleanup_stale_source_clusters : ClusterMesh → W → W × List Warning
  unfolding sweep_clusters sources_for
  cleanup_stale_source_clusters mesh w =
      sweep_clusters
        (λ name c. delete_stale_source_clusters c.peers mesh.name (sources_for mesh name))
        (r.visit_names (cluster_names r.registry)) w

  -- `cleanupOrphanMeshPeers`
  unfoldable pub cleanup_orphan_mesh_peers : W → W × List Warning
  unfolding sweep_clusters
  cleanup_orphan_mesh_peers w = elim (r.client.list w) [
    | none ↦ (w, listing_meshes ∷ [])
    | some meshes ↦
        sweep_clusters (λ name c. sweep_orphan_peers c.peers (living_meshes meshes))
          (r.visit_names (cluster_names r.registry)) w
  ]
