-- ===== src/Peer/Reconciler/Settled.antt =====
-- The store after `ReconcilePeers` of internal/peer/reconciler.go, without the store before it.
use kilo_clustermesh_operato.Base.{
  ◌≡◌, ◌≢◌, refl, sym, ◌∙◌, ap, subst, inl, inr, String, true, false, Option, none, some, List, [],
  Text, Bool-cases, Option-cases, some-eq-some,
}
use kilo_clustermesh_operato.Api.{Peer}
use kilo_clustermesh_operato.Peer.Naming.{labels}
use kilo_clustermesh_operato.Peer.Reconciler.Client.{PeerClient, IsPeerStore, matches}
use kilo_clustermesh_operato.Peer.Reconciler.Maps.{PeerMap, lookup_peer, build_map}
use kilo_clustermesh_operato.Peer.Reconciler.{reconcile_peers}
use kilo_clustermesh_operato.Peer.Reconciler.Converge.{
  Stands, Converged, VisitsAll, reconcile_peers_converges,
}

module _ {S : Type 0} (client : PeerClient S) (find : S → Text → Option Peer)
    (store : IsPeerStore client find) where
  -- Every desired peer stands, and every stored peer that the selector matches has a desired name.
  abbrev pub Settled : List (String × Text) → List Peer → S → Type 0
  Settled sel desired s =
      ((d : Peer) → lookup_peer d.name (build_map desired) ≡ some d → Stands client find store d s)
      × ((p : Peer)
          → find s p.name ≡ some p
          → matches sel p.labels ≡ true
          → lookup_peer p.name (build_map desired) ≢ none)

  -- A stored peer of a name that is not desired was there before, and the selector does not match it.
  undesired :
      (sel : List (String × Text)) (desired : List Peer) (s s' : S) (k : Text) (p : Peer)
      → Converged client find store sel desired s s'
      → lookup_peer k (build_map desired) ≡ none
      → find s' k ≡ some p
      → (find s k ≡ some p) × (matches sel p.labels ≡ false)
  undesired sel desired s s' k p (_, cleared, kept) missing here = elim (Option-cases (find s k)) [
    | inl absent ↦ cc (kept k missing (λ q found. cc))
    | inr (q, found) ↦ elim (Bool-cases (matches sel q.labels)) [
      | inl selected ↦
          let name = store.named s k q found in
          let gone =
            cleared q (ap (find s) name ∙ found) selected
              (ap (λ n. lookup_peer n (build_map desired)) name ∙ missing) in
          cc (ap (find s') name)
      | inr foreign ↦
          let same = kept k missing (λ r found'.
            subst (λ x. matches sel x.labels ≡ false) (some-eq-some q r (sym found ∙ found'))
              foreign) in
          let equal = some-eq-some q p (sym found ∙ sym same ∙ here) in
          (sym same ∙ here, subst (λ x. matches sel x.labels ≡ false) equal foreign)
    ]
  ]

  pub Converged-Settled :
      (sel : List (String × Text)) (desired : List Peer) (s s' : S)
      → Converged client find store sel desired s s'
      → Settled sel desired s'
  Converged-Settled sel desired s s' c =
      (c.0, λ p here selected missing. cc ((undesired sel desired s s' p.name p c missing here).1))

  no_desired : (k : Text) → lookup_peer k (build_map []) ≡ none
  unfolding lookup_peer build_map
  no_desired k = refl

  -- `ReconcilePeers` for a source without desired peers, run without an error, only removes: a peer
  -- that is stored after it was stored before it, and does not carry the labels of the mesh and
  -- the source.
  pub reconcile_peers-removes :
      (visit : PeerMap → PeerMap) (mesh source : Text) (s : S)
      → VisitsAll visit
      → (reconcile_peers client visit mesh source [] s).1 ≡ []
      → (k : Text) (p : Peer) → find (reconcile_peers client visit mesh source [] s).0 k ≡ some p
      → (find s k ≡ some p) × (matches (labels mesh source) p.labels ≡ false)
  reconcile_peers-removes visit mesh source s visits h k p here =
      undesired (labels mesh source) [] s _ k p
        (reconcile_peers_converges client find store visit mesh source [] s visits
          (λ all d e i. absurd i) h)
        (no_desired k) here
