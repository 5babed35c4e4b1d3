-- ===== src/Controller/Push.antt =====
-- `pushPeersToTargets` of internal/controller/clustermesh_controller.go.

use kilo_clustermesh_operato.Base.{
  Option, none, some, List, [], ◌∷◌, Text, str_eq, if◌then◌else◌, length,
}
use kilo_clustermesh_operato.Base.Result.{Result, ok, err}
use kilo_clustermesh_operato.Api.{ClusterMesh, ClusterEntry, ClusterStatus, Node, Peer}
use kilo_clustermesh_operato.Kilonode.Discovered.{discovered_endpoints_by_key}
use kilo_clustermesh_operato.Multicluster.Registry.{client_of}
use kilo_clustermesh_operato.Peer.Reconciler.{ReconcileError, reconcile_peers}
use kilo_clustermesh_operato.Controller.Desired.{build_desired_peers, mesh_persistent_keepalive}
use kilo_clustermesh_operato.Controller.Enrich.{enrich_endpoints}
use kilo_clustermesh_operato.Controller.Objects.{
  ClusterMeshReconciler, ClusterClient, ControllerError, building, reconciling,
}

-- The errors of `ReconcilePeers` as one of the controller's.
unfoldable pub reconciled : Text → Text → List ReconcileError → Option ControllerError
reconciled source target [] = none
reconciled source target (e ∷ es) = some (reconciling source target (e ∷ es))

module _ {W : Type 0} (r : ClusterMeshReconciler W) where
  -- What a target cluster is given: the desired peers with the endpoints that its nodes observed.
  unfoldable pub push_desired : ClusterClient W → List Peer → W → List Peer
  push_desired c desired w =
      enrich_endpoints (discovered_endpoints_by_key r.decode (c.list_nodes w)) desired

  unfoldable pub push_to_client :
      Text → Text → Text → List Peer → ClusterClient W → W → W × Option ControllerError
  unfolding reconciled push_desired
  push_to_client mesh_name source target desired c w =
      let (w', errs) =
        reconcile_peers c.peers r.visit mesh_name source (push_desired c desired w) w in
      (w', reconciled source target errs)

  -- One round of the loop of `pushPeersToTargets`.
  unfoldable pub push_to_target :
      Text → Text → List Peer → ClusterEntry → W → W × Option ControllerError
  unfolding push_to_client
  push_to_target mesh_name source desired target w =
      if str_eq target.name source then (w, none) else elim (client_of r.registry target.name) [
        | none ↦ (w, none)
        | some c ↦ push_to_client mesh_name source target.name desired c w
      ]

  -- The loop, left at the first error.
  unfoldable pub push_to_targets :
      Text → Text → List Peer → List ClusterEntry → W → W × Option ControllerError
  unfolding push_to_target
  push_to_targets mesh_name source desired [] w = (w, none)
  push_to_targets mesh_name source desired (target ∷ targets) w =
      let (w', e) = push_to_target mesh_name source desired target w in
      elim e [
        | some failure ↦ (w', some failure)
        | none ↦ push_to_targets mesh_name source desired targets w'
      ]

  -- `pushPeersToTargets`; the error, or the number for `status.RegisteredPeers`.
  unfoldable pub push_peers_to_targets :
      ClusterMesh
      → ClusterEntry
      → List Node
      → ClusterStatus
      → W
      → W × Result ControllerError ClusterStatus
  unfolding push_to_targets
  push_peers_to_targets mesh source valid_nodes status w =
      elim (build_desired_peers r.platform mesh.name source valid_nodes
        (mesh_persistent_keepalive mesh.spec.clusters)) [
          | err e ↦ (w, err (building source.name e))
          | ok desired ↦
              let (w', e) = push_to_targets mesh.name source.name desired mesh.spec.clusters w in
              (
                w',
                elim e [
                  | some failure ↦ err failure
                  | none ↦ ok (record status { registered_peers = length desired })
                ],
              )
        ]
