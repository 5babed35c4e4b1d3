-- ===== src/Controller/Deletion.antt =====
-- `handleDeletion` of internal/controller/clustermesh_controller.go: the peers after its loops.
use kilo_clustermesh_operato.Base.{
  append-eq-nil, ne_of_str_eq-false, ◌≡◌, ◌≢◌, refl, sym, ◌∙◌, ap, subst, inl, inr, false, Option,
  some, List, [], ◌∷◌, Text, In, str_eq, str_eq_iff, Bool-cases, Option-cases,
}
use kilo_clustermesh_operato.Api.{ClusterMesh, ClusterEntry, Peer}
use kilo_clustermesh_operato.Multicluster.Registry.{client_of}
use kilo_clustermesh_operato.Peer.Naming.{labels}
use kilo_clustermesh_operato.Peer.Reconciler.{ReconcileError, reconcile_peers}
use kilo_clustermesh_operato.Peer.Reconciler.Client.{matches}
use kilo_clustermesh_operato.Peer.Reconciler.Converge.{VisitsAll}
use kilo_clustermesh_operato.Peer.Reconciler.Settled.{reconcile_peers-removes}
use kilo_clustermesh_operato.Peer.Reconciler.Frame.{reconcile_peers-keeps}
use kilo_clustermesh_operato.Controller.Objects.{ClusterMeshReconciler, ClusterClient}
use kilo_clustermesh_operato.Controller.Frame.{IsFleet}
use kilo_clustermesh_operato.Controller.Cleanup.{
  Warning, deleting_peers, warn, delete_pair, delete_from_targets, delete_sources,
  delete_mesh_peers,
}

pub warn-nil :
    (f : List ReconcileError → Warning) (errs : List ReconcileError) → warn f errs ≡ [] → errs ≡ []
unfolding warn
warn-nil f [] e = refl
warn-nil f (x ∷ errs) e = cc

module _ {W : Type 0} (r : ClusterMeshReconciler W) (find : Text → W → Text → Option Peer)
    (fleet : IsFleet r find) (visits : VisitsAll r.visit) (mesh : Text) where
  -- No peer of the cluster is new.
  abbrev Shrinks : Text → W → W → Type 0
  Shrinks m w w' = (k : Text) (p : Peer) → find m w' k ≡ some p → find m w k ≡ some p

  -- No peer of the cluster carries the labels of the mesh and the source.
  abbrev pub IsClear : Text → Text → W → Type 0
  IsClear source m w =
      (k : Text) (p : Peer) → find m w k ≡ some p → matches (labels mesh source) p.labels ≡ false

  module _ (source : ClusterEntry) where
    -- A run in the cluster of that name, or another.
    run-Shrinks :
        (n m : Text) (c : ClusterClient W) (w : W)
        → client_of r.registry n ≡ some c
        → (reconcile_peers c.peers r.visit mesh source.name [] w).1 ≡ []
        → Shrinks m w (reconcile_peers c.peers r.visit mesh source.name [] w).0
    run-Shrinks n m c w known h k p here = elim (Bool-cases (str_eq n m)) [
      | inr miss ↦
          sym (
            reconcile_peers-keeps c.peers (λ v. find m v k ≡ find m w k)
              (fleet.apart n c m k (find m w k) known (ne_of_str_eq-false n m miss)) r.visit mesh
              source.name [] w refl)
          ∙ here
      | inl hit ↦
          let same = (str_eq_iff n m).0 hit in
          ap (λ x. find x w k) (sym same)
          ∙ (reconcile_peers-removes c.peers (find n) (fleet.stores n c known) r.visit mesh
              source.name w visits h k p
              (ap (λ x. find x (reconcile_peers c.peers r.visit mesh source.name [] w).0 k) same
                ∙ here)).0
    ]

    pair-Shrinks :
        (t : ClusterEntry) (m : Text) (w : W)
        → (delete_pair r mesh source t w).1 ≡ []
        → Shrinks m w (delete_pair r mesh source t w).0
    unfolding delete_pair
    pair-Shrinks t m w h = elim (Bool-cases (str_eq t.name source.name)) [
      | inl own ↦ rw own (λ k p here. here)
      | inr other ↦ elim (Option-cases (client_of r.registry t.name)) [
        | inl e ↦ cc (rw (other, e, delete_pair) at h)
        | inr (c, e) ↦
            rw (other, e, delete_pair)
              (run-Shrinks t.name m c w e
                (warn-nil (deleting_peers source.name t.name) _ (rw (other, e, delete_pair) at h)))
      ]
    ]

    pair-IsClear :
        (t : ClusterEntry) (w : W)
        → t.name ≢ source.name
        → (delete_pair r mesh source t w).1 ≡ []
        → IsClear source.name t.name (delete_pair r mesh source t w).0
    unfolding delete_pair
    pair-IsClear t w ne h = elim (Bool-cases (str_eq t.name source.name)) [
      | inl own ↦ absurd (ne ((str_eq_iff t.name source.name).0 own))
      | inr other ↦ elim (Option-cases (client_of r.registry t.name)) [
        | inl e ↦ cc (rw (other, e, delete_pair) at h)
        | inr (c, e) ↦
            rw (other, e, delete_pair)
              (λ k p here.
                (reconcile_peers-removes c.peers (find t.name) (fleet.stores t.name c e) r.visit
                  mesh source.name w visits
                  (warn-nil (deleting_peers source.name t.name) _ (rw (other, e, delete_pair) at h))
                  k p here).1)
      ]
    ]

    targets-Shrinks :
        (ts : List ClusterEntry) (m : Text) (w : W)
        → (delete_from_targets r mesh source ts w).1 ≡ []
        → Shrinks m w (delete_from_targets r mesh source ts w).0
    unfolding delete_from_targets
    targets-Shrinks [] m w h k p here = here
    targets-Shrinks (t ∷ ts) m w h k p here =
        let (h1, h2) = append-eq-nil _ _ h in
        pair-Shrinks t m w h1 k p (targets-Shrinks ts m _ h2 k p here)

    targets-IsClear :
        (ts : List ClusterEntry) (t : ClusterEntry) (w : W)
        → In t ts
        → t.name ≢ source.name
        → (delete_from_targets r mesh source ts w).1 ≡ []
        → IsClear source.name t.name (delete_from_targets r mesh source ts w).0
    unfolding delete_from_targets
    targets-IsClear [] t w i ne h k p here = absurd i
    targets-IsClear (x ∷ ts) t w (inl same) ne h k p here =
        let (h1, h2) = append-eq-nil _ _ h in
        subst
          (λ y.
            y.name ≢ source.name
            → (delete_pair r mesh source y w).1 ≡ []
            → IsClear source.name y.name (delete_pair r mesh source y w).0)
          same (pair-IsClear t w) (λ e. ne (ap (λ y. y.name) same ∙ e)) h1 k p
          (targets-Shrinks ts x.name _ h2 k p (
            ap
              (λ y.
                find y.name
                  (delete_from_targets r mesh source ts (delete_pair r mesh source x w).0).0 k)
              (sym same)
            ∙ here))
    targets-IsClear (x ∷ ts) t w (inr i) ne h k p here =
        let (h1, h2) = append-eq-nil _ _ h in targets-IsClear ts t _ i ne h2 k p here

  module _ (targets : List ClusterEntry) where
    sources-Shrinks :
        (ss : List ClusterEntry) (m : Text) (w : W)
        → (delete_sources r mesh targets ss w).1 ≡ []
        → Shrinks m w (delete_sources r mesh targets ss w).0
    unfolding delete_sources
    sources-Shrinks [] m w h k p here = here
    sources-Shrinks (s ∷ ss) m w h k p here =
        let (h1, h2) = append-eq-nil _ _ h in
        targets-Shrinks s targets m w h1 k p (sources-Shrinks ss m _ h2 k p here)

    sources-IsClear :
        (ss : List ClusterEntry) (s t : ClusterEntry) (w : W)
        → In s ss
        → In t targets
        → t.name ≢ s.name
        → (delete_sources r mesh targets ss w).1 ≡ []
        → IsClear s.name t.name (delete_sources r mesh targets ss w).0
    unfolding delete_sources
    sources-IsClear [] s t w i j ne h k p here = absurd i
    sources-IsClear (x ∷ ss) s t w (inl same) j ne h k p here =
        let (h1, h2) = append-eq-nil _ _ h in
        ap (λ y. matches (labels mesh y.name) p.labels) same
        ∙ targets-IsClear x targets t w j (λ e. ne (e ∙ ap (λ y. y.name) (sym same))) h1 k p
            (sources-Shrinks ss t.name _ h2 k p here)
    sources-IsClear (x ∷ ss) s t w (inr i) j ne h k p here =
        let (h1, h2) = append-eq-nil _ _ h in sources-IsClear ss s t _ i j ne h2 k p here

-- The loops of `handleDeletion`, without a warning on a fleet of separate clusters and where `range`
-- visits every entry of a map once, take the mesh out
-- of every pair of its clusters: afterwards no peer of a cluster of the mesh carries the labels of the
-- mesh and of another cluster of the mesh as source, and every peer of any cluster was there before.
pub delete_mesh_peers_clears :
    {W : Type 0} (r : ClusterMeshReconciler W) (find : Text → W → Text → Option Peer)
    (mesh : ClusterMesh) (w : W)
    → IsFleet r find
    → VisitsAll r.visit
    → (delete_mesh_peers r mesh w).1 ≡ []
    → ((s t : ClusterEntry)
        → In s mesh.spec.clusters
        → In t mesh.spec.clusters
        → t.name ≢ s.name
        → (k : Text) (p : Peer) → find t.name (delete_mesh_peers r mesh w).0 k ≡ some p
        → matches (labels mesh.name s.name) p.labels ≡ false)
      × ((m k : Text) (p : Peer)
          → find m (delete_mesh_peers r mesh w).0 k ≡ some p
          → find m w k ≡ some p)
unfolding delete_mesh_peers
delete_mesh_peers_clears r find mesh w fleet visits h = (
  λ s t i j ne.
      sources-IsClear r find fleet visits mesh.name mesh.spec.clusters mesh.spec.clusters s t w i j
        ne h,
  λ m. sources-Shrinks r find fleet visits mesh.name mesh.spec.clusters mesh.spec.clusters m w h,
)
