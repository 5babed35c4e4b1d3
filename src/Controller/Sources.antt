-- ===== src/Controller/Sources.antt =====
-- `reconcileAllClusters` of internal/controller/clustermesh_controller.go.
use kilo_clustermesh_operato.Base.{
  Bool, true, false, ◌&&◌, ◌||◌, none, some, List, [], ◌∷◌, ◌++◌, ltb,
}
use kilo_clustermesh_operato.Base.Result.{Result, ok, err}
use kilo_clustermesh_operato.Api.{ClusterMesh, ClusterEntry, ClusterStatus, Node}
use kilo_clustermesh_operato.Multicluster.Registry.{client_of}
use kilo_clustermesh_operato.Controller.Nodes.{Filtered, filter_nodes}
use kilo_clustermesh_operato.Controller.Push.{push_peers_to_targets}
use kilo_clustermesh_operato.Controller.Objects.{
  ClusterMeshReconciler, ControllerError, listing_nodes,
}

abbrev pub is_nil : {A : Type 0} → List A → Bool
is_nil [] = true
is_nil (x ∷ xs) = false

-- The first case of the `switch`: no node is valid, and some may become so by itself.
unfoldable pub is_bootstrapping : List Node → Filtered → Bool
is_bootstrapping nodes filtered =
    is_nil filtered.valid && (is_nil nodes || ltb 0 filtered.transient_skipped)

-- `status`, before the push.
unfoldable pub initial_status : ClusterEntry → Filtered → ClusterStatus
initial_status source filtered = record {
  name = source.name;
  registered_peers = 0;
  skipped_nodes = filtered.skipped;
}

-- What the rounds of the loop append to `statuses` and set in `incomplete`.
pub record Progress : Type 0 where
  pub statuses : List ClusterStatus
  pub incomplete : Bool

module _ {W : Type 0} (r : ClusterMeshReconciler W) where
  unfoldable pub reconcile_listed :
      ClusterMesh → ClusterEntry → List Node → W → W × Result ControllerError Progress
  unfolding is_bootstrapping initial_status
  reconcile_listed mesh source nodes w =
      let filtered = filter_nodes nodes source in
      let (w', pushed) =
        push_peers_to_targets r mesh source filtered.valid (initial_status source filtered) w in
      (
        w',
        elim pushed [
          | err e ↦ err e
          | ok status ↦
              ok (record { statuses = status ∷ []; incomplete = is_bootstrapping nodes filtered })
        ],
      )

  -- One round of the loop of `reconcileAllClusters`.
  unfoldable pub reconcile_source :
      ClusterMesh → ClusterEntry → W → W × Result ControllerError Progress
  unfolding reconcile_listed
  reconcile_source mesh source w = elim (client_of r.registry source.name) [
    | none ↦ (w, ok (record { statuses = []; incomplete = true }))
    | some c ↦ elim (c.list_nodes w) [
      | none ↦ (w, err (listing_nodes source.name))
      | some nodes ↦ reconcile_listed mesh source nodes w
    ]
  ]

  -- The loop, from what the rounds so far have made, left at the first error.
  unfoldable pub reconcile_sources :
      ClusterMesh → List ClusterEntry → W → W × Result ControllerError Progress
  unfolding reconcile_source
  reconcile_sources mesh [] w = (w, ok (record { statuses = []; incomplete = false }))
  reconcile_sources mesh (source ∷ sources) w =
      let (w', one) = reconcile_source mesh source w in
      elim one [
        | err e ↦ (w', err e)
        | ok here ↦
            let (w'', rest) = reconcile_sources mesh sources w' in
            (
              w'',
              elim rest [
                | err e ↦ err e
                | ok later ↦ ok (record {
                  statuses = here.statuses ++ later.statuses;
                  incomplete = here.incomplete || later.incomplete;
                })
              ],
            )
      ]

  -- `reconcileAllClusters`
  unfoldable pub reconcile_all_clusters : ClusterMesh → W → W × Result ControllerError Progress
  unfolding reconcile_sources
  reconcile_all_clusters mesh w = reconcile_sources mesh mesh.spec.clusters w
