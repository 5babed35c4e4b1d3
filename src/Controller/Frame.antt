-- ===== src/Controller/Frame.antt =====
-- `reconcileAllClusters` of internal/controller/clustermesh_controller.go: the clusters it leaves
-- alone.
use kilo_clustermesh_operato.Base.{
  ne_of_str_eq-false, ◌≡◌, ◌≢◌, refl, inl, inr, Option, some, List, [], ◌∷◌, Text, In, str_eq,
  Bool-cases, Option-cases,
}
use kilo_clustermesh_operato.Base.Result.{Result-cases}
use kilo_clustermesh_operato.Api.{ClusterMesh, ClusterEntry, ClusterStatus, Node, Peer}
use kilo_clustermesh_operato.Multicluster.Registry.{client_of}
use kilo_clustermesh_operato.Peer.Reconciler.Client.{IsPeerStore}
use kilo_clustermesh_operato.Peer.Reconciler.Frame.{Keeps, reconcile_peers-keeps}
use kilo_clustermesh_operato.Controller.Desired.{build_desired_peers, mesh_persistent_keepalive}
use kilo_clustermesh_operato.Controller.Nodes.{filter_nodes}
use kilo_clustermesh_operato.Controller.Objects.{ClusterMeshReconciler, ClusterClient}
use kilo_clustermesh_operato.Controller.Push.{
  push_desired, push_to_client, push_to_target, push_to_targets, push_peers_to_targets,
}
use kilo_clustermesh_operato.Controller.Sources.{
  initial_status, reconcile_listed, reconcile_source, reconcile_sources, reconcile_all_clusters,
}

-- The clusters behind the names of the registry are separate: each keeps its peers as documented, a
-- write to one leaves the peers of the others, and no write of a peer changes a list of nodes.
pub record IsFleet {W : Type 0} (r : ClusterMeshReconciler W) (find : Text → W → Text → Option Peer)
    : Type 0 where
  pub stores :
      (n : Text) (c : ClusterClient W)
      → client_of r.registry n ≡ some c
      → IsPeerStore c.peers (find n)
  pub apart :
      (n : Text) (c : ClusterClient W) (m k : Text) (x : Option Peer)
      → client_of r.registry n ≡ some c
      → n ≢ m
      → Keeps c.peers (λ w. find m w k ≡ x)
  pub nodes :
      (n m : Text) (c d : ClusterClient W) (x : Option (List Node))
      → client_of r.registry n ≡ some c
      → client_of r.registry m ≡ some d
      → Keeps c.peers (λ w. d.list_nodes w ≡ x)

module _ {W : Type 0} (r : ClusterMeshReconciler W) (P : W → Type 0) where
  -- The clients of these clusters keep `P`.
  abbrev pub KeepEach : List ClusterEntry → Type 0
  KeepEach targets =
      (t : ClusterEntry) (c : ClusterClient W)
      → In t targets
      → client_of r.registry t.name ≡ some c
      → Keeps c.peers P

  pub push_to_target-keeps :
      (mesh source : Text) (desired : List Peer) (t : ClusterEntry) (w : W)
      → ((c : ClusterClient W)
          → t.name ≢ source
          → client_of r.registry t.name ≡ some c
          → Keeps c.peers P)
      → P w
      → P (push_to_target r mesh source desired t w).0
  unfolding push_to_target push_to_client
  push_to_target-keeps mesh source desired t w keeps h = elim (Bool-cases (str_eq t.name source)) [
    | inl own ↦ rw own h
    | inr other ↦ elim (Option-cases (client_of r.registry t.name)) [
      | inl e ↦ rw (other, e, push_to_target) h
      | inr (c, e) ↦
          rw (other, e, push_to_target)
            (reconcile_peers-keeps c.peers P (keeps c (ne_of_str_eq-false t.name source other) e)
              r.visit mesh source (push_desired r c desired w) w h)
    ]
  ]

  pub push_to_targets-keeps :
      (mesh source : Text) (desired : List Peer) (targets : List ClusterEntry) (w : W)
      → KeepEach targets
      → P w
      → P (push_to_targets r mesh source desired targets w).0
  unfolding push_to_targets
  push_to_targets-keeps mesh source desired [] w keeps h = h
  push_to_targets-keeps mesh source desired (t ∷ ts) w keeps h =
      let here = push_to_target-keeps mesh source desired t w (λ c ne. keeps t c (inl refl)) h in
      elim (Option-cases (push_to_target r mesh source desired t w).1) [
        | inr (e, failure) ↦ rw (failure, push_to_targets) here
        | inl fine ↦
            rw (fine, push_to_targets)
              (push_to_targets-keeps mesh source desired ts _ (λ x c i. keeps x c (inr i)) here)
      ]

  module _ (mesh : ClusterMesh) (keeps : KeepEach mesh.spec.clusters) where
    pub push_peers_to_targets-keeps :
        (source : ClusterEntry) (nodes : List Node) (status : ClusterStatus) (w : W)
        → P w
        → P (push_peers_to_targets r mesh source nodes status w).0
    unfolding push_peers_to_targets
    push_peers_to_targets-keeps source nodes status w h =
        elim (Result-cases (
          build_desired_peers r.platform mesh.name source nodes
            (mesh_persistent_keepalive mesh.spec.clusters))) [
              | inr (e, bad) ↦ rw (bad, push_peers_to_targets) h
              | inl (desired, built) ↦
                  rw (built, push_peers_to_targets)
                    (push_to_targets-keeps mesh.name source.name desired mesh.spec.clusters w keeps
                      h)
            ]

    pub reconcile_source-keeps :
        (source : ClusterEntry) (w : W) → P w → P (reconcile_source r mesh source w).0
    unfolding reconcile_source reconcile_listed
    reconcile_source-keeps source w h = elim (Option-cases (client_of r.registry source.name)) [
      | inl e ↦ rw (e, reconcile_source) h
      | inr (c, e) ↦ elim (Option-cases (c.list_nodes w)) [
        | inl f ↦ rw (e, f, reconcile_source) h
        | inr (nodes, f) ↦
            rw (e, f, reconcile_source)
              (push_peers_to_targets-keeps source (filter_nodes nodes source).valid
                (initial_status source (filter_nodes nodes source)) w h)
      ]
    ]

    pub reconcile_sources-keeps :
        (sources : List ClusterEntry) (w : W) → P w → P (reconcile_sources r mesh sources w).0
    unfolding reconcile_sources
    reconcile_sources-keeps [] w h = h
    reconcile_sources-keeps (s ∷ ss) w h =
        let here = reconcile_source-keeps s w h in
        elim (Result-cases (reconcile_source r mesh s w).1) [
          | inr (e, bad) ↦ rw (bad, reconcile_sources) here
          | inl (p, fine) ↦ rw (fine, reconcile_sources) (reconcile_sources-keeps ss _ here)
        ]

-- `reconcileAllClusters` leaves alone the clusters that the mesh does not list: on a fleet of separate
-- clusters, whatever the run returns, each peer of such a cluster is as it was.
pub reconcile_all_clusters-frame :
    {W : Type 0} (r : ClusterMeshReconciler W) (find : Text → W → Text → Option Peer)
    → IsFleet r find
    → (mesh : ClusterMesh) (w : W) (m : Text)
    → ((t : ClusterEntry) → In t mesh.spec.clusters → t.name ≢ m)
    → (k : Text) → find m (reconcile_all_clusters r mesh w).0 k ≡ find m w k
unfolding reconcile_all_clusters
reconcile_all_clusters-frame r find fleet mesh w m outside k =
    reconcile_sources-keeps r (λ v. find m v k ≡ find m w k) mesh
      (λ t c i e. fleet.apart t.name c m k (find m w k) e (outside t i)) mesh.spec.clusters w refl
