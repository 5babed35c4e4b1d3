-- ===== src/Controller/Swept/Orphans.antt =====
-- `cleanupOrphanMeshPeers` of internal/controller/clustermesh_controller.go: the clusters of the
-- registry after it.
use kilo_clustermesh_operato.Base.{
  ne_of_str_eq-false, any-str_eq_iff, ◌≡◌, refl, sym, ◌∙◌, ap, inl, inr, ◌⊎◌, true, false, Option,
  some, List, [], Text, In, any, str_eq, str_eq_iff, value_at, Bool-cases, Option-cases,
}
use kilo_clustermesh_operato.Api.{ClusterMesh, Peer}
use kilo_clustermesh_operato.Kilonode.{is_empty}
use kilo_clustermesh_operato.Multicluster.Registry.{client_of, cluster_names}
use kilo_clustermesh_operato.Peer.Naming.{label_mesh}
use kilo_clustermesh_operato.Peer.Reconciler.Client.{PeerClient}
use kilo_clustermesh_operato.Peer.Reconciler.Frame.{Keeps, delete_where-keeps}
use kilo_clustermesh_operato.Peer.Reconciler.Sweep.{delete_where-sweeps}
use kilo_clustermesh_operato.Controller.Objects.{ClusterMeshReconciler, ClusterClient}
use kilo_clustermesh_operato.Controller.Frame.{IsFleet}
use kilo_clustermesh_operato.Controller.Orphans.{living_meshes, is_orphan, sweep_orphan_peers}
use kilo_clustermesh_operato.Controller.Orphans.Swept.{HasMesh, In-living_meshes}
use kilo_clustermesh_operato.Controller.Cleanup.{cleanup_orphan_mesh_peers}
use kilo_clustermesh_operato.Controller.Swept.{left_over, known-In, sweep_clusters-leaves}

sweep_orphan-keeps :
    {S : Type 0} (client : PeerClient S) (P : S → Type 0)
    → Keeps client P
    → (living : List Text) (s : S) → P s
    → P (sweep_orphan_peers client living s).0
unfolding sweep_orphan_peers
sweep_orphan-keeps client P keeps living s h = elim (Option-cases (client.list_all s)) [
  | inl e ↦ rw (e, sweep_orphan_peers) h
  | inr (peers, e) ↦
      rw (e, sweep_orphan_peers) (delete_where-keeps client P keeps (is_orphan living) peers s h)
]

-- The peer has no mesh label, or that of one of the meshes.
abbrev pub IsOwned : List ClusterMesh → Peer → Type 0
IsOwned meshes p = (is_empty (value_at label_mesh p.labels) ≡ true) ⊎ HasMesh meshes p

not_orphan :
    (meshes : List ClusterMesh) (p : Peer)
    → is_orphan (living_meshes meshes) p ≡ false
    → IsOwned meshes p
unfolding is_orphan
not_orphan meshes p h =
    let label = value_at label_mesh p.labels in
    elim (Bool-cases (is_empty label)) [
      | inl bare ↦ inl bare
      | inr full ↦ elim (Bool-cases (any (str_eq label) (living_meshes meshes))) [
        | inr dead ↦ cc (rw (full, dead, is_orphan) at h)
        | inl alive ↦
            inr (
              In-living_meshes label meshes ((any-str_eq_iff label (living_meshes meshes)).0 alive))
      ]
    ]

module _ {W : Type 0} (r : ClusterMeshReconciler W) (find : Text → W → Text → Option Peer)
    (fleet : IsFleet r find) (meshes : List ClusterMesh) where
  -- The cluster of the sweep.
  own-step :
      (n : Text) (c : ClusterClient W) (w : W)
      → client_of r.registry n ≡ some c
      → (sweep_orphan_peers c.peers (living_meshes meshes) w).1 ≡ []
      → (k : Text) (p : Peer)
      → find n (sweep_orphan_peers c.peers (living_meshes meshes) w).0 k ≡ some p
      → (find n w k ≡ some p) × IsOwned meshes p
  unfolding sweep_orphan_peers
  own-step n c w known h k p here = elim (Option-cases (c.peers.list_all w)) [
    | inl unlisted ↦ cc (rw (unlisted, sweep_orphan_peers) at h)
    | inr (peers, listed) ↦
        let store = fleet.stores n c known in
        let (gone, kept) =
          delete_where-sweeps c.peers (find n) store (λ q. Unit {0})
            (is_orphan (living_meshes meshes)) peers w
            (λ q. (
              λ i. ((store.lists_all w peers listed q).0 i, tt),
              λ v. (store.lists_all w peers listed q).1 v.0,
            ))
            (rw (listed, sweep_orphan_peers) at h) in
        let (before, spared) =
          left_over (find n w) (find n _) (λ q. true) (is_orphan (living_meshes meshes))
            (store.named w) (λ q there l hit. gone q there tt hit)
            (λ j out. kept j (λ q there l. out q there refl)) k p
            (rw (listed, sweep_orphan_peers) at here) in
        (before, not_orphan meshes p (spared refl))
  ]

  orphan-step :
      (n : Text) (c : ClusterClient W) (w : W)
      → client_of r.registry n ≡ some c
      → (sweep_orphan_peers c.peers (living_meshes meshes) w).1 ≡ []
      → (m k : Text) (p : Peer)
      → find m (sweep_orphan_peers c.peers (living_meshes meshes) w).0 k ≡ some p
      → (find m w k ≡ some p) × (n ≡ m → IsOwned meshes p)
  orphan-step n c w known h m k p here = elim (Bool-cases (str_eq n m)) [
    | inr miss ↦
        let ne = ne_of_str_eq-false n m miss in
        (
          sym (
                sweep_orphan-keeps c.peers (λ v. find m v k ≡ find m w k)
                  (fleet.apart n c m k (find m w k) known ne) (living_meshes meshes) w refl)
              ∙ here,
          λ same. absurd (ne same),
        )
    | inl hit ↦
        let same = (str_eq_iff n m).0 hit in
        let after = (sweep_orphan_peers c.peers (living_meshes meshes) w).0 in
        let (before, owned) = own-step n c w known h k p (ap (λ x. find x after k) same ∙ here) in
        (ap (λ x. find x w k) (sym same) ∙ before, λ _. owned)
  ]

-- `cleanupOrphanMeshPeers`, without a warning on a fleet of separate clusters and where `range` visits
-- every name of the registry, leaves no ghosts:
-- afterwards every peer of a cluster of the registry has no mesh label or that of one of the meshes
-- that the list call returned, and every peer of any cluster was there before.
pub cleanup_orphan_mesh_peers_sweeps :
    {W : Type 0} (r : ClusterMeshReconciler W) (find : Text → W → Text → Option Peer)
    (meshes : List ClusterMesh) (w : W)
    → IsFleet r find
    → r.client.list w ≡ some meshes
    → ((n : Text)
        → In n (cluster_names r.registry)
        → In n (r.visit_names (cluster_names r.registry)))
    → (cleanup_orphan_mesh_peers r w).1 ≡ []
    → (m k : Text) (p : Peer) → find m (cleanup_orphan_mesh_peers r w).0 k ≡ some p
    → (find m w k ≡ some p)
      × ((c : ClusterClient W) → client_of r.registry m ≡ some c → IsOwned meshes p)
unfolding cleanup_orphan_mesh_peers cluster_names client_of
cleanup_orphan_mesh_peers_sweeps r find meshes w fleet listed all h m k p here =
    let (before, owned) =
      sweep_clusters-leaves r find (λ n q. IsOwned meshes q)
        (λ name c. sweep_orphan_peers c.peers (living_meshes meshes))
        (orphan-step r find fleet meshes) (r.visit_names (cluster_names r.registry)) w m k p
        (rw (listed, cleanup_orphan_mesh_peers) at h)
        (rw (listed, cleanup_orphan_mesh_peers) at here) in
    (before, λ c known. owned c known (all m (known-In m c r.registry.clusters known)))
