-- ===== src/Controller/Orphans/Swept.antt =====
-- The store after `sweepOrphanPeersInCluster` of internal/controller/clustermesh_controller.go, with
-- the meshes of `collectLivingMeshes`.
use kilo_clustermesh_operato.Base.{
  subst, some-eq-some, ◌≡◌, ◌↔◌, refl, sym, ◌∙◌, ap, inl, inr, ◌⊎◌, true, false, Option, none, some,
  List, [], ◌∷◌, Text, In, str_eq, any, any-str_eq_iff, value_at, Bool-cases, Option-cases,
}
use kilo_clustermesh_operato.Api.{ClusterMesh, Peer}
use kilo_clustermesh_operato.Kilonode.{is_empty}
use kilo_clustermesh_operato.Peer.Naming.{label_mesh}
use kilo_clustermesh_operato.Peer.Reconciler.Client.{PeerClient, IsPeerStore}
use kilo_clustermesh_operato.Peer.Reconciler.Sweep.{delete_where-sweeps}
use kilo_clustermesh_operato.Controller.Orphans.{living_meshes, is_orphan, sweep_orphan_peers}

-- The mesh that the peer is labelled with is one of the list.
abbrev pub HasMesh : List ClusterMesh → Peer → Type 0
HasMesh meshes p = (m : ClusterMesh) × In m meshes × (value_at label_mesh p.labels ≡ m.name)

pub In-living_meshes :
    (t : Text) (meshes : List ClusterMesh)
    → In t (living_meshes meshes)
    → (m : ClusterMesh) × In m meshes × (t ≡ m.name)
unfolding living_meshes
In-living_meshes t [] i = absurd i
In-living_meshes t (m ∷ ms) (inl same) = (m, inl refl, same)
In-living_meshes t (m ∷ ms) (inr i) = let (n, j, same) = In-living_meshes t ms i in (n, inr j, same)

living_meshes-In :
    (m : ClusterMesh) (meshes : List ClusterMesh) → In m meshes → In m.name (living_meshes meshes)
unfolding living_meshes
living_meshes-In m [] i = absurd i
living_meshes-In m (n ∷ ms) (inl same) = inl (ap (λ x. x.name) same)
living_meshes-In m (n ∷ ms) (inr i) = inr (living_meshes-In m ms i)

is_orphan_iff :
    (meshes : List ClusterMesh) (p : Peer)
    → (is_orphan (living_meshes meshes) p ≡ true)
      ↔ ((is_empty (value_at label_mesh p.labels) ≡ false) × (HasMesh meshes p → ⊥))
unfolding is_orphan
is_orphan_iff meshes p =
    let label = value_at label_mesh p.labels in
    let (to, from) = any-str_eq_iff label (living_meshes meshes) in
    elim (Bool-cases (is_empty label)) [
      | inl empty ↦ rw empty (λ e. cc, λ (e, out). cc)
      | inr full ↦ elim (Bool-cases (any (str_eq label) (living_meshes meshes))) [
        | inl alive ↦
            rw (full, alive)
              (λ e. cc, λ (e, out). absurd (out (In-living_meshes label meshes (to alive))))
        | inr dead ↦
            rw (full, dead)
              (
                λ e. (
                  refl,
                  λ (m, i, same). cc (
                    from (
                        subst (λ t. In t (living_meshes meshes)) (sym same)
                          (living_meshes-In m meshes i)),
                    dead,
                  ),
                ),
                λ v. refl,
              )
      ]
    ]

module _ {S : Type 0} (client : PeerClient S) (find : S → Text → Option Peer)
    (store : IsPeerStore client find) where
  -- The sweep of orphaned peers, run without a warning on a store that behaves as documented: every
  -- stored peer whose mesh label is not empty and names none of the meshes is gone, and a stored peer
  -- without the label, or with the name of one of the meshes, is as it was.
  pub sweep_orphan_peers_sweeps :
      (meshes : List ClusterMesh) (s : S)
      → (sweep_orphan_peers client (living_meshes meshes) s).1 ≡ []
      → (p : Peer) → find s p.name ≡ some p
      → ((is_empty (value_at label_mesh p.labels) ≡ false)
          → (HasMesh meshes p → ⊥)
          → find (sweep_orphan_peers client (living_meshes meshes) s).0 p.name ≡ none)
        × (((is_empty (value_at label_mesh p.labels) ≡ true) ⊎ HasMesh meshes p)
            → find (sweep_orphan_peers client (living_meshes meshes) s).0 p.name ≡ some p)
  unfolding sweep_orphan_peers
  sweep_orphan_peers_sweeps meshes s h p here = elim (Option-cases (client.list_all s)) [
    | inl unlisted ↦ cc (rw (unlisted, sweep_orphan_peers) at h)
    | inr (peers, listed) ↦
        let (to, from) = is_orphan_iff meshes p in
        let (gone, kept) =
          delete_where-sweeps client find store (λ q. Unit {0}) (is_orphan (living_meshes meshes))
            peers s
            (λ q. (
              λ i. ((store.lists_all s peers listed q).0 i, tt),
              λ v. (store.lists_all s peers listed q).1 v.0,
            ))
            (rw (listed, sweep_orphan_peers) at h) in
        let spared : ((is_empty (value_at label_mesh p.labels) ≡ true) ⊎ HasMesh meshes p)
            → is_orphan (living_meshes meshes) p ≡ false =
          λ safe. elim (Bool-cases (is_orphan (living_meshes meshes) p)) [
            | inr spared ↦ spared
            | inl hit ↦ elim safe [
              | inl bare ↦ cc ((to hit).0, bare)
              | inr owned ↦ absurd ((to hit).1 owned)
            ]
          ] in
        rw (listed, sweep_orphan_peers)
          (
            λ full out. gone p here tt (from (full, out)),
            λ safe.
                kept p.name (λ q found l.
                  ap (is_orphan (living_meshes meshes)) (some-eq-some q p (sym found ∙ here))
                  ∙ spared safe)
                ∙ here,
          )
  ]
