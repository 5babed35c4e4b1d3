-- ===== src/Controller/Reconcile.antt =====
-- `reconcile` of internal/controller/clustermesh_controller.go, and `selectResult`, which `Reconcile`
-- applies to its result.
use kilo_clustermesh_operato.Base.{
  ℕ, Bool, true, false, Option, none, some, List, String, if◌then◌else◌,
}
use kilo_clustermesh_operato.Base.Result.{Result, ok, err}
use kilo_clustermesh_operato.Api.{ClusterMesh, ClusterStatus}
use kilo_clustermesh_operato.Validation.Mesh.{MeshError, validate_mesh_networks}
use kilo_clustermesh_operato.Peer.Reconciler.Client.{not_found, failed}
use kilo_clustermesh_operato.Controller.Requests.{Request}
use kilo_clustermesh_operato.Controller.Objects.{
  ClusterMeshReconciler, MeshObject, Message, literal, error_text, ControllerError, fetching,
  adding_finalizer, updating_on_overlap, updating_status,
}
use kilo_clustermesh_operato.Controller.Sources.{Progress, reconcile_all_clusters}
use kilo_clustermesh_operato.Controller.Cleanup.{
  finalizer_name, failed_with, handle_deletion, cleanup_stale_source_clusters,
  cleanup_orphan_mesh_peers,
}

-- `reconcileState`
pub data ReconcileState : Type 0 where
  done bootstrap synced : ReconcileState

-- In seconds; a `ctrl.Result` without `RequeueAfter` is 0.
abbrev pub bootstrap_requeue_after : ℕ
bootstrap_requeue_after = 30

abbrev pub sync_requeue_after : ℕ
sync_requeue_after = 300

-- `selectResult`
unfoldable pub select_result : ReconcileState → Option ControllerError → Result ControllerError ℕ
select_result state (some e) = err e
select_result bootstrap none = ok bootstrap_requeue_after
select_result synced none = ok sync_requeue_after
select_result done none = ok 0

module _ {W : Type 0} (r : ClusterMeshReconciler W) where
  -- `setCondition`
  unfoldable pub set_condition : String → Bool → String → Message → MeshObject → MeshObject
  set_condition kind status reason message obj = record obj {
    conditions =
        r.libraries.set_status_condition
          (record {
            kind = kind;
            status = status;
            reason = reason;
            message = message;
            observed_generation = obj.generation;
          })
          obj.conditions;
  }

  -- `validateMeshNetworks` of the controller: the overlap, `none` if the list call fails.
  unfoldable pub find_overlap : ClusterMesh → W → Option MeshError
  find_overlap mesh w = elim (r.client.list_in mesh.namespace w) [
    | none ↦ none
    | some meshes ↦ validate_mesh_networks meshes
  ]

  -- `setOverlapCondition`
  unfoldable pub set_overlap_condition : MeshObject → MeshError → W → W × Option ControllerError
  unfolding set_condition failed_with
  set_overlap_condition obj e w =
      let overlapping = set_condition "NetworksOverlap" true "CIDROverlap" (error_text e) obj in
      let marked =
        set_condition "Ready" false "NetworksOverlap"
          (literal "CIDR overlap detected across meshes") overlapping in
      let (w', failure) = r.client.status_update marked w in
      (w', failed_with updating_on_overlap failure)

  -- `updateStatus`
  unfoldable pub update_status : MeshObject → List ClusterStatus → W → W × Option ControllerError
  unfolding set_condition failed_with
  update_status obj statuses w =
      let ready =
        set_condition "Ready" true "Reconciled" (literal "all clusters reconciled successfully")
          (record obj { clusters = statuses }) in
      let (w', failure) = r.client.status_update ready w in
      (w', failed_with updating_status failure)

  -- The end of `reconcile`, behind `reconcileAllClusters`.
  unfoldable pub finish : MeshObject → Progress → W → W × ReconcileState × Option ControllerError
  unfolding update_status
  finish obj progress w =
      let swept = cleanup_stale_source_clusters r obj.mesh w in
      let clean = cleanup_orphan_mesh_peers r swept.0 in
      let (w', e) = update_status obj progress.statuses clean.0 in
      (w', if progress.incomplete then bootstrap else synced, e)

  -- `reconcile` of a mesh that is not being deleted and has the finalizer.
  unfoldable pub reconcile_live : MeshObject → W → W × ReconcileState × Option ControllerError
  unfolding find_overlap set_overlap_condition set_condition finish
  reconcile_live obj w = elim (find_overlap obj.mesh w) [
    | some e ↦ let (w', failure) = set_overlap_condition obj e w in (w', done, failure)
    | none ↦
        let disjoint =
          set_condition "NetworksOverlap" false "NoOverlap" (literal "all CIDRs are disjoint")
            obj in
        let (w', result) = reconcile_all_clusters r obj.mesh w in
        elim result [ err e ↦ (w', done, some e) | ok progress ↦ finish disjoint progress w' ]
  ]

  unfoldable pub ensure_finalizer : MeshObject → W → W × Option ControllerError
  unfolding failed_with
  ensure_finalizer obj w =
      let (w', failure) =
        r.client.update
          (record obj { finalizers = r.libraries.add_finalizer finalizer_name obj.finalizers }) w in
      (w', failed_with adding_finalizer failure)

  -- `reconcile`
  unfoldable pub reconcile : Request → W → W × ReconcileState × Option ControllerError
  unfolding reconcile_live ensure_finalizer
  reconcile request w = elim (r.client.get request w) [
    | err not_found ↦ (w, done, none)
    | err failed ↦ (w, done, some fetching)
    | ok obj ↦
        if obj.deleting
        then (let (w', e) = handle_deletion r obj w in (w', done, e))
        else if r.libraries.contains_finalizer finalizer_name obj.finalizers
        then reconcile_live obj w
        else (let (w', e) = ensure_finalizer obj w in (w', done, e))
  ]
