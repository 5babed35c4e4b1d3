-- ===== src/Controller/Orphans.antt =====
-- The sweep of peers without a mesh: `collectLivingMeshes` and `sweepOrphanPeersInCluster` of
-- internal/controller/clustermesh_controller.go. A failed call is logged and passed over; the
-- log's warnings are the list returned.
pub mod Swept
use kilo_clustermesh_operato.Base.{
  Bool, false, not, Option, none, some, List, [], ◌∷◌, map, if◌then◌else◌, Text, str_eq, any,
  value_at,
}
use kilo_clustermesh_operato.Api.{ClusterMesh, Peer}
use kilo_clustermesh_operato.Kilonode.{is_empty}
use kilo_clustermesh_operato.Peer.Naming.{label_mesh}
use kilo_clustermesh_operato.Peer.Reconciler.Client.{PeerClient}
use kilo_clustermesh_operato.Peer.Reconciler.{ReconcileError, listing_all, delete_where}

-- The keys of the set of `collectLivingMeshes`, behind its list call.
unfoldable pub living_meshes : List ClusterMesh → List Text
living_meshes meshes = map (λ m. m.name) meshes

-- The tests of the loop: a mesh label that is not empty and names no living mesh.
unfoldable pub is_orphan : List Text → Peer → Bool
is_orphan living p =
    if is_empty (value_at label_mesh p.labels)
    then false
    else not (any (str_eq (value_at label_mesh p.labels)) living)

module _ {S : Type 0} (client : PeerClient S) where
  -- `sweepOrphanPeersInCluster`
  unfoldable pub sweep_orphan_peers : List Text → S → S × List ReconcileError
  unfolding is_orphan
  sweep_orphan_peers living s = elim (client.list_all s) [
    | none ↦ (s, listing_all ∷ [])
    | some peers ↦ delete_where client (is_orphan living) peers s
  ]
