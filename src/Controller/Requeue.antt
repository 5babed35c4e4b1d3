-- ===== src/Controller/Requeue.antt =====
-- `Reconcile` of internal/controller/clustermesh_controller.go: the requeue of its result.
use kilo_clustermesh_operato.Base.{
  ◌<◌, ◌^◌, ◌≡◌, ◌↔◌, refl, sym, ◌∙◌, ap, subst, inl, inr, ◌⊎◌, Bool, true, false, Option, none,
  some, Text, In, if◌then◌else◌, Bool-cases, Option-cases, arith,
}
use kilo_clustermesh_operato.Base.Result.{ok, Result-cases, ok-eq-ok}
use kilo_clustermesh_operato.Api.{ClusterEntry, Peer}
use kilo_clustermesh_operato.Validation.Mesh.{MeshError}
use kilo_clustermesh_operato.Peer.Reconciler.Client.{not_found, failed}
use kilo_clustermesh_operato.Controller.Objects.{ClusterMeshReconciler, MeshObject}
use kilo_clustermesh_operato.Controller.Sources.{Progress, reconcile_all_clusters}
use kilo_clustermesh_operato.Controller.Frame.{IsFleet}
use kilo_clustermesh_operato.Controller.Statuses.{IsWaiting, incomplete_iff}
use kilo_clustermesh_operato.Controller.Requests.{Request}
use kilo_clustermesh_operato.Controller.Cleanup.{finalizer_name, handle_deletion}
use kilo_clustermesh_operato.Controller.Reconcile.{
  ReconcileState, done, bootstrap, synced, select_result, find_overlap, finish,
  set_overlap_condition, reconcile_live, reconcile, ensure_finalizer,
}

-- A request for a mesh that is live: it exists, is not being deleted and has the finalizer.
abbrev pub IsLive : {W : Type 0} → ClusterMeshReconciler W → Request → MeshObject → W → Type 0
IsLive r request obj w =
    (r.client.get request w ≡ ok obj)
    × (obj.deleting ≡ false)
    × (r.libraries.contains_finalizer finalizer_name obj.finalizers ≡ true)

module _ {W : Type 0} (r : ClusterMeshReconciler W) where
  reconcile-live :
      (request : Request) (obj : MeshObject) (w : W)
      → IsLive r request obj w
      → reconcile r request w ≡ reconcile_live r obj w
  unfolding reconcile
  reconcile-live request obj w (found, here, marked) = rw (found, here, marked, reconcile) refl

  reconcile-unmarked :
      (request : Request) (obj : MeshObject) (w : W)
      → r.client.get request w ≡ ok obj
      → obj.deleting ≡ false
      → r.libraries.contains_finalizer finalizer_name obj.finalizers ≡ false
      → reconcile r request w ≡ ((ensure_finalizer r obj w).0, done, (ensure_finalizer r obj w).1)
  unfolding reconcile
  reconcile-unmarked request obj w found here bare = rw (found, here, bare, reconcile) refl

  pub reconcile-deleting :
      (request : Request) (obj : MeshObject) (w : W)
      → r.client.get request w ≡ ok obj
      → obj.deleting ≡ true
      → reconcile r request w ≡ ((handle_deletion r obj w).0, done, (handle_deletion r obj w).1)
  unfolding reconcile
  reconcile-deleting request obj w found going = rw (found, going, reconcile) refl

  -- No write of the client of the meshes, failed or not, ends `P`.
  pub record KeepsStatus (P : W → Type 0) : Type 0 where
    pub updates : (obj : MeshObject) (w : W) → P w → P (r.client.update obj w).0
    pub status_updates : (obj : MeshObject) (w : W) → P w → P (r.client.status_update obj w).0

  -- The requests on which peers may be written.
  abbrev pub MayWrite : Request → W → MeshObject → Type 0
  MayWrite request w obj =
      (r.client.get request w ≡ ok obj)
      × (r.libraries.contains_finalizer finalizer_name obj.finalizers ≡ true)
      × ((obj.deleting ≡ true) ⊎ ((obj.deleting ≡ false) × (find_overlap r obj.mesh w ≡ none)))

  overlap-keeps :
      (P : W → Type 0) (obj : MeshObject) (w : W) (e : MeshError)
      → KeepsStatus P
      → find_overlap r obj.mesh w ≡ some e
      → P w
      → P (reconcile_live r obj w).0
  unfolding reconcile_live set_overlap_condition
  overlap-keeps P obj w e keeps found h = rw (found, reconcile_live) (keeps.status_updates _ w h)

  ensure_finalizer-keeps :
      (P : W → Type 0) (obj : MeshObject) (w : W)
      → KeepsStatus P
      → P w
      → P (ensure_finalizer r obj w).0
  unfolding ensure_finalizer
  ensure_finalizer-keeps P obj w keeps h = keeps.updates _ w h

  unmarked-keeps :
      (P : W → Type 0) (obj : MeshObject) (w : W)
      → r.libraries.contains_finalizer finalizer_name obj.finalizers ≡ false
      → P w
      → P (handle_deletion r obj w).0
  unfolding handle_deletion
  unmarked-keeps P obj w bare h = rw (bare, handle_deletion) h

  -- Peers are only written for a mesh that exists and has the finalizer, so that its deletion will
  -- find them, and that either is being deleted or shows no overlap: of any other request, `reconcile`
  -- leaves whatever the writes of ClusterMesh objects leave.
  pub reconcile-guarded :
      (P : W → Type 0) (request : Request) (w : W)
      → KeepsStatus P
      → ((obj : MeshObject) → MayWrite request w obj → ⊥)
      → P w
      → P (reconcile r request w).0
  unfolding reconcile
  reconcile-guarded P request w keeps never h = elim (Result-cases (r.client.get request w)) [
    | inr (not_found, e) ↦ rw (e, reconcile) h
    | inr (failed, e) ↦ rw (e, reconcile) h
    | inl (obj, e) ↦
        elim (Bool-cases (r.libraries.contains_finalizer finalizer_name obj.finalizers)) [
          | inl marked ↦ elim (Bool-cases obj.deleting) [
            | inl going ↦ absurd (never obj (e, marked, inl going))
            | inr live ↦ elim (Option-cases (find_overlap r obj.mesh w)) [
              | inl disjoint ↦ absurd (never obj (e, marked, inr (live, disjoint)))
              | inr (cause, found) ↦
                  subst (λ x. P x.0) (sym (reconcile-live request obj w (e, live, marked)))
                    (overlap-keeps P obj w cause keeps found h)
            ]
          ]
          | inr bare ↦ elim (Bool-cases obj.deleting) [
            | inl going ↦
                subst (λ x. P x.0) (sym (reconcile-deleting request obj w e going))
                  (unmarked-keeps P obj w bare h)
            | inr live ↦
                subst (λ x. P x.0) (sym (reconcile-unmarked request obj w e live bare))
                  (ensure_finalizer-keeps P obj w keeps h)
          ]
        ]
  ]

  -- The requeue of a live mesh
  live-state :
      (obj : MeshObject) (w : W)
      → find_overlap r obj.mesh w ≡ none
      → (reconcile_live r obj w).2 ≡ none
      → (p : Progress) × ((reconcile_all_clusters r obj.mesh w).1 ≡ ok p)
        × ((reconcile_live r obj w).1 ≡ (if p.incomplete then bootstrap else synced))
  unfolding reconcile_live finish
  live-state obj w disjoint h = elim (Result-cases (reconcile_all_clusters r obj.mesh w).1) [
    | inr (e, failure) ↦ cc (rw (disjoint, failure, reconcile_live) at h)
    | inl (p, fine) ↦ (p, fine, rw (disjoint, fine, reconcile_live) refl)
  ]

pick :
    (b : Bool) (state : ReconcileState)
    → state ≡ (if b then bootstrap else synced)
    → ((select_result state none ≡ ok 30) ↔ (b ≡ true))
      × (b ≡ false → select_result state none ≡ ok 300)
unfolding select_result
pick true state e = rw e ((λ h. refl, λ h. refl), λ h. cc)
pick false state e = rw e ((λ h. absurd (omega (arith, ok-eq-ok _ _ h)), λ h. cc), λ h. refl)

-- A live mesh without an overlap is looked at again: on separate clusters and entries with 16-bit
-- ports, a reconcile of it without an error asks for a requeue after 30 seconds if and only if a
-- source of the mesh was waiting before it, and after 300 seconds if none was.
pub reconcile-requeues :
    {W : Type 0} (r : ClusterMeshReconciler W) (find : Text → W → Text → Option Peer)
    → IsFleet r find
    → (request : Request) (obj : MeshObject) (w : W)
    → ((e : ClusterEntry) → In e obj.mesh.spec.clusters → e.wireguard_port < 2 ^ 16)
    → IsLive r request obj w
    → find_overlap r obj.mesh w ≡ none
    → (reconcile r request w).2 ≡ none
    → ((select_result (reconcile r request w).1 (reconcile r request w).2 ≡ ok 30)
        ↔ ((e : ClusterEntry) × In e obj.mesh.spec.clusters × IsWaiting r w e))
      × (((e : ClusterEntry) → In e obj.mesh.spec.clusters → IsWaiting r w e → ⊥)
          → select_result (reconcile r request w).1 (reconcile r request w).2 ≡ ok 300)
reconcile-requeues r find fleet request obj w bounds live disjoint h =
    let same = reconcile-live r request obj w live in
    let (p, fine, state) = live-state r obj w disjoint (ap (λ x. x.2) (sym same) ∙ h) in
    let (waits, waiting) = incomplete_iff r find fleet obj.mesh bounds w p fine in
    let (quick, slow) = pick p.incomplete (reconcile r request w).1 (ap (λ x. x.1) same ∙ state) in
    rw h (
      (λ e. waits (quick.0 e), λ v. quick.1 (waiting v)),
      λ none_waits. slow (elim (Bool-cases p.incomplete) [
        | inr steady ↦ steady
        | inl busy ↦ let (e, i, v) = waits busy in absurd (none_waits e i v)
      ]),
    )
