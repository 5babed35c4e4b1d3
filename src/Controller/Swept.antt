-- ===== src/Controller/Swept.antt =====
-- `cleanupStaleSourceClusters` and `cleanupOrphanMeshPeers` of
-- internal/controller/clustermesh_controller.go: the clusters of the registry after them.
pub mod Orphans
use kilo_clustermesh_operato.Base.{
  append-eq-nil, ne_of_str_eq-false, any-str_eq_iff, ◌≡◌, refl, sym, ◌∙◌, ap, subst, inl, inr, Bool,
  true, false, Option, none, some, List, [], ◌∷◌, Text, In, any, map, str_eq, str_eq_iff, value_at,
  get_key, Bool-cases, Option-cases, some-eq-some,
}
use kilo_clustermesh_operato.Api.{ClusterMesh, ClusterEntry, Peer}
use kilo_clustermesh_operato.Multicluster.Registry.{client_of, cluster_names}
use kilo_clustermesh_operato.Peer.Naming.{label_mesh, label_source_cluster}
use kilo_clustermesh_operato.Peer.Reconciler.{
  ReconcileError, is_stale, delete_stale_source_clusters,
}
use kilo_clustermesh_operato.Peer.Reconciler.Client.{matches}
use kilo_clustermesh_operato.Peer.Reconciler.Frame.{delete_stale-keeps}
use kilo_clustermesh_operato.Peer.Reconciler.Sweep.{delete_stale_source_clusters_lem}
use kilo_clustermesh_operato.Controller.Objects.{ClusterMeshReconciler, ClusterClient}
use kilo_clustermesh_operato.Controller.Frame.{IsFleet}
use kilo_clustermesh_operato.Controller.Deletion.{warn-nil}
use kilo_clustermesh_operato.Controller.Cleanup.{
  sweeping, warn, sweep_clusters, sources_for, cleanup_stale_source_clusters,
}

-- What a sweep of a store leaves was there, and is not picked.
pub left_over :
    (before after : Text → Option Peer) (listed picked : Peer → Bool)
    → ((k : Text) (p : Peer) → before k ≡ some p → p.name ≡ k)
    → ((p : Peer)
        → before p.name ≡ some p
        → listed p ≡ true
        → picked p ≡ true
        → after p.name ≡ none)
    → ((k : Text)
        → ((p : Peer) → before k ≡ some p → listed p ≡ true → picked p ≡ false)
        → after k ≡ before k)
    → (k : Text) (p : Peer) → after k ≡ some p
    → (before k ≡ some p) × (listed p ≡ true → picked p ≡ false)
left_over before after listed picked named gone kept k p here = elim (Option-cases (before k)) [
  | inl absent ↦ cc (kept k (λ q found. cc))
  | inr (q, found) ↦
      let stays : (listed q ≡ true → picked q ≡ false)
          → (before k ≡ some p) × (listed p ≡ true → picked p ≡ false) =
        λ spared.
          let same = kept k (λ v found'.
            subst (λ x. listed x ≡ true → picked x ≡ false) (some-eq-some q v (sym found ∙ found'))
              spared) in
          (
            sym same ∙ here,
            subst (λ x. listed x ≡ true → picked x ≡ false)
                (some-eq-some q p (sym found ∙ sym same ∙ here)) spared,
          ) in
      elim (Bool-cases (listed q)) [
        | inr unlisted ↦ stays (λ shown. cc (shown, unlisted))
        | inl shown ↦ elim (Bool-cases (picked q)) [
          | inr miss ↦ stays (λ l. miss)
          | inl hit ↦
              let name = named k q found in
              cc (gone q (ap before name ∙ found) shown hit, ap after name)
        ]
      ]
]

module _ {W : Type 0} (r : ClusterMeshReconciler W) (find : Text → W → Text → Option Peer)
    (R : Text → Peer → Type 0) (sweep : Text → ClusterClient W → W → W × List ReconcileError)
    (step : (n : Text) (c : ClusterClient W) (w : W)
      → client_of r.registry n ≡ some c
      → (sweep n c w).1 ≡ []
      → (m k : Text) (p : Peer) → find m (sweep n c w).0 k ≡ some p
      → (find m w k ≡ some p) × (n ≡ m → R m p)) where
  pub sweep_clusters-leaves :
      (names : List Text) (w : W) (m k : Text) (p : Peer)
      → (sweep_clusters r sweep names w).1 ≡ []
      → find m (sweep_clusters r sweep names w).0 k ≡ some p
      → (find m w k ≡ some p)
        × ((c : ClusterClient W) → client_of r.registry m ≡ some c → In m names → R m p)
  unfolding sweep_clusters
  sweep_clusters-leaves [] w m k p h here = (here, λ c known i. absurd i)
  sweep_clusters-leaves (n ∷ names) w m k p h here = elim (Option-cases (client_of r.registry n)) [
    | inl missing ↦
        let (before, later) =
          sweep_clusters-leaves names w m k p (rw (missing, sweep_clusters) at h)
            (rw (missing, sweep_clusters) at here) in
        (
          before,
          λ c known i. elim i [
            | inl same ↦ cc (ap (client_of r.registry) same, missing, known)
            | inr j ↦ later c known j
          ],
        )
    | inr (c, known) ↦
        let (h1, h2) =
          append-eq-nil (warn (sweeping n) (sweep n c w).1) _ (rw (known, sweep_clusters) at h) in
        let (between, later) =
          sweep_clusters-leaves names (sweep n c w).0 m k p h2
            (rw (known, sweep_clusters) at here) in
        let (before, now) =
          step n c w known (warn-nil (sweeping n) (sweep n c w).1 h1) m k p between in
        (before, λ d known' i. elim i [ inl same ↦ now (sym same) | inr j ↦ later d known' j ])
  ]

In-names :
    (x : Text) (es : List ClusterEntry)
    → In x (map (λ e. e.name) es)
    → (e : ClusterEntry) × In e es × (e.name ≡ x)
In-names x [] i = absurd i
In-names x (e ∷ es) (inl same) = (e, inl refl, sym same)
In-names x (e ∷ es) (inr i) = let (v, j, same) = In-names x es i in (v, inr j, same)

pub known-In :
    {A : Type 0} (n : Text) (a : A) (m : List (Text × A))
    → get_key n m ≡ some a
    → In n (map (λ e. e.0) m)
unfolding get_key
known-In n a [] h = cc
known-In n a ((k, b) ∷ m) h = elim (Bool-cases (str_eq k n)) [
  | inl hit ↦ inl (sym ((str_eq_iff k n).0 hit))
  | inr miss ↦ inr (known-In n a m (rw (miss, get_key) at h))
]

-- A cluster of the mesh has that name.
abbrev pub HasCluster : ClusterMesh → Text → Type 0
HasCluster mesh n = (e : ClusterEntry) × In e mesh.spec.clusters × (e.name ≡ n)

not_stale :
    (mesh : ClusterMesh) (n : Text) (p : Peer)
    → is_stale (sources_for mesh n) p ≡ false
    → HasCluster mesh n × HasCluster mesh (value_at label_source_cluster p.labels)
unfolding is_stale sources_for
not_stale mesh n p h =
    let valid = map (λ e. e.name) mesh.spec.clusters in
    let source = value_at label_source_cluster p.labels in
    elim (Bool-cases (any (str_eq n) valid)) [
      | inr out ↦ cc (rw (out, sources_for, is_stale) at h)
      | inl inside ↦ elim (Bool-cases (any (str_eq source) valid)) [
        | inr stale ↦ cc (rw (inside, sources_for, is_stale, stale) at h)
        | inl fresh ↦ (
          In-names n mesh.spec.clusters ((any-str_eq_iff n valid).0 inside),
          In-names source mesh.spec.clusters ((any-str_eq_iff source valid).0 fresh),
        )
      ]
    ]

module _ {W : Type 0} (r : ClusterMeshReconciler W) (find : Text → W → Text → Option Peer)
    (fleet : IsFleet r find) (mesh : ClusterMesh) where
  -- The mesh has business with the peer in that cluster.
  abbrev pub Belongs : Text → Peer → Type 0
  Belongs n p =
      matches ((label_mesh, mesh.name) ∷ []) p.labels ≡ true
      → HasCluster mesh n × HasCluster mesh (value_at label_source_cluster p.labels)

  stale-step :
      (n : Text) (c : ClusterClient W) (w : W)
      → client_of r.registry n ≡ some c
      → (delete_stale_source_clusters c.peers mesh.name (sources_for mesh n) w).1 ≡ []
      → (m k : Text) (p : Peer)
      → find m (delete_stale_source_clusters c.peers mesh.name (sources_for mesh n) w).0 k ≡ some p
      → (find m w k ≡ some p) × (n ≡ m → Belongs m p)
  stale-step n c w known h m k p here = elim (Bool-cases (str_eq n m)) [
    | inr miss ↦
        let ne = ne_of_str_eq-false n m miss in
        (
          sym (
                delete_stale-keeps c.peers (λ v. find m v k ≡ find m w k)
                  (fleet.apart n c m k (find m w k) known ne) mesh.name (sources_for mesh n) w refl)
              ∙ here,
          λ same. absurd (ne same),
        )
    | inl hit ↦
        let same = (str_eq_iff n m).0 hit in
        let store = fleet.stores n c known in
        let (gone, kept) =
          delete_stale_source_clusters_lem c.peers (find n) store mesh.name (sources_for mesh n) w
            h in
        let after = (delete_stale_source_clusters c.peers mesh.name (sources_for mesh n) w).0 in
        let (before, spared) =
          left_over (find n w) (find n after) (λ q. matches ((label_mesh, mesh.name) ∷ []) q.labels)
            (is_stale (sources_for mesh n)) (store.named w) gone kept k p
            (ap (λ x. find x after k) same ∙ here) in
        (
          ap (λ x. find x w k) (sym same) ∙ before,
          λ _. subst (λ x. Belongs x p) same (λ labelled. not_stale mesh n p (spared labelled)),
        )
  ]

  -- `cleanupStaleSourceClusters`, without a warning on a fleet of separate clusters and where `range`
  -- visits every name of the registry, leaves a mesh no
  -- stale peer: afterwards a peer that carries the mesh's label, in any cluster of the registry, is in a
  -- cluster that the mesh still lists and comes from one that it still lists; and every peer of any
  -- cluster was there before.
  pub cleanup_stale_source_clusters_sweeps :
      (w : W)
      → ((n : Text)
          → In n (cluster_names r.registry)
          → In n (r.visit_names (cluster_names r.registry)))
      → (cleanup_stale_source_clusters r mesh w).1 ≡ []
      → (m k : Text) (p : Peer) → find m (cleanup_stale_source_clusters r mesh w).0 k ≡ some p
      → (find m w k ≡ some p)
        × ((c : ClusterClient W)
            → client_of r.registry m ≡ some c
            → matches ((label_mesh, mesh.name) ∷ []) p.labels ≡ true
            → HasCluster mesh m × HasCluster mesh (value_at label_source_cluster p.labels))
  unfolding cleanup_stale_source_clusters cluster_names client_of
  cleanup_stale_source_clusters_sweeps w all h m k p here =
      let (before, clean) =
        sweep_clusters-leaves r find Belongs
          (λ name c. delete_stale_source_clusters c.peers mesh.name (sources_for mesh name))
          stale-step (r.visit_names (cluster_names r.registry)) w m k p h here in
      (before, λ c known. clean c known (all m (known-In m c r.registry.clusters known)))
