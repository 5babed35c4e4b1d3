-- ===== src/Peer/Reconciler/Idle.antt =====
-- `ReconcilePeers` of internal/peer/reconciler.go on a store that is as it should be.
use kilo_clustermesh_operato.Base.{
  ◌≡◌, ◌≢◌, refl, sym, ◌∙◌, ap, inl, inr, String, true, Option, none, some, List, [], ◌∷◌, Text, In,
  Option-cases,
}
use kilo_clustermesh_operato.Api.{Peer}
use kilo_clustermesh_operato.Peer.Naming.{labels}
use kilo_clustermesh_operato.Peer.Reconciler.Client.{PeerClient, IsPeerStore, matches}
use kilo_clustermesh_operato.Peer.Reconciler.Maps.{
  PeerMap, lookup_peer, build_map, build_map-IsMap, In-lookup, lookup-build_map, found-build_map,
}
use kilo_clustermesh_operato.Peer.Reconciler.{
  reconcile_peers, canonical_peers, peer_spec_equal, reconcile_one, reconcile_desired, delete_one,
  delete_orphans,
}
use kilo_clustermesh_operato.Peer.Reconciler.Converge.{VisitsAll}
use kilo_clustermesh_operato.Peer.Reconciler.Settled.{Settled}

module _ {S : Type 0} (client : PeerClient S) (find : S → Text → Option Peer)
    (store : IsPeerStore client find) where
  -- The entry's peer exists with an equal specification.
  abbrev InPlace : PeerMap → Text × Peer → Type 0
  InPlace existing e =
      (q : Peer) × (lookup_peer e.0 existing ≡ some q) × (peer_spec_equal q.spec e.1.spec ≡ true)

  reconcile_desired-idle :
      (wanted existing : PeerMap) (all : List Peer) (s : S)
      → ((e : Text × Peer) → In e wanted → InPlace existing e)
      → reconcile_desired client wanted existing all s ≡ (s, [])
  unfolding reconcile_desired reconcile_one
  reconcile_desired-idle [] existing all s ready = refl
  reconcile_desired-idle ((n, d) ∷ rest) existing all s ready =
      let (q, found, equal) = ready (n, d) (inl refl) in
      rw (found, equal, reconcile_one)
        (rw (reconcile_desired-idle rest existing all s (λ e i. ready e (inr i))) refl)

  delete_orphans-idle :
      (existing wanted : PeerMap) (s : S)
      → ((e : Text × Peer) → In e existing → lookup_peer e.0 wanted ≢ none)
      → delete_orphans client existing wanted s ≡ (s, [])
  unfolding delete_orphans delete_one
  delete_orphans-idle [] wanted s kept = refl
  delete_orphans-idle ((n, p) ∷ rest) wanted s kept = elim (Option-cases (lookup_peer n wanted)) [
    | inl missing ↦ absurd (kept (n, p) (inl refl) missing)
    | inr (d, found) ↦
        rw (found, delete_one) (rw (delete_orphans-idle rest wanted s (λ e i. kept e (inr i))) refl)
  ]

  module _ (sel : List (String × Text)) (desired items : List Peer) (s : S)
      (listed : client.list_labelled sel s ≡ some items) where
    -- What the existing map holds under a name is what is stored there.
    existing-stored :
        (q : Peer)
        → find s q.name ≡ some q
        → matches sel q.labels ≡ true
        → lookup_peer q.name (build_map items) ≡ some q
    existing-stored q here selected =
        let (r, found) =
          found-build_map q items ((store.lists sel s items listed q).1 (here, selected)) in
        let (member, same) = lookup-build_map q.name r items found in
        let there = ((store.lists sel s items listed r).0 member).0 in
        found ∙ sym there ∙ ap (find s) same ∙ here

  -- A store that is as it should be is left alone: on a store that behaves as documented, and where
  -- `range` visits every entry of a map once, if every desired peer stands in it, under the labels
  -- of the mesh and the source, and it holds no other peer with these labels, `ReconcilePeers`, where
  -- its two list calls succeed, writes nothing and returns no error.
  pub reconcile_peers-idle :
      (visit : PeerMap → PeerMap) (mesh source : Text) (desired all items : List Peer) (s : S)
      → VisitsAll visit
      → Settled client find store (labels mesh source) desired s
      → ((d q : Peer)
          → lookup_peer d.name (build_map desired) ≡ some d
          → find s d.name ≡ some q
          → matches (labels mesh source) q.labels ≡ true)
      → client.list_all s ≡ some all
      → client.list_labelled (labels mesh source) s ≡ some items
      → reconcile_peers client visit mesh source desired s ≡ (s, [])
  unfolding reconcile_peers
  reconcile_peers-idle visit mesh source desired all items s visits (stands, owned) labelled
        everything listed =
      let wanted = build_map desired in
      let existing = build_map items in
      let sel = labels mesh source in
      let w = build_map-IsMap desired in
      let x = build_map-IsMap items in
      let first = reconcile_desired-idle (visit wanted) existing (canonical_peers [] all) s (λ e i.
        let member = (visits.same wanted e).0 i in
        let named = w.named e member in
        let at_key = In-lookup e.0 e.1 wanted w.distinct member in
        let found = ap (λ n. lookup_peer n wanted) (sym named) ∙ at_key in
        let (q, here, equal) = stands e.1 found in
        let name = store.named s e.1.name q here in
        (
          q,
          ap (λ n. lookup_peer n existing) (named ∙ sym name)
              ∙ existing-stored sel desired items s listed q (ap (find s) name ∙ here)
                  (labelled e.1 q found here),
          equal,
        )) in
      let second = delete_orphans-idle (visit existing) wanted s (λ e i.
        let member = (visits.same existing e).0 i in
        let (inside, name) =
          lookup-build_map e.0 e.1 items (In-lookup e.0 e.1 existing x.distinct member) in
        let (here, selected) = (store.lists sel s items listed e.1).0 inside in
        λ missing. owned e.1 here selected (ap (λ n. lookup_peer n wanted) name ∙ missing)) in
      rw (everything, reconcile_peers, listed) (rw (first, second) refl)
