-- ===== src/Peer/Reconciler/Converge.antt =====
-- `ReconcilePeers` of internal/peer/reconciler.go: the store after a run without an error.
mod Writes
mod Upserts
mod Orphans
use kilo_clustermesh_operato.Base.{append-eq-nil}
use kilo_clustermesh_operato.Base.{
  ◌≡◌, ◌≢◌, ◌↔◌, refl, sym, ◌∙◌, subst, inl, inr, ◌⊎◌, String, true, false, Option, none, some,
  List, [], ◌∷◌, ◌++◌, Text, In, AllPairs, str_eq_iff, str_eq_refl, arith, Bool-cases, Option-cases,
}
use kilo_clustermesh_operato.Api.{Peer}
use kilo_clustermesh_operato.Peer.Naming.{labels}
use kilo_clustermesh_operato.Peer.Reconciler.Client.{PeerClient, IsPeerStore, ApiError, matches}
use kilo_clustermesh_operato.Peer.Reconciler.Maps.{
  PeerMap, lookup_peer, build_map, KeyDiffers, build_map-IsMap, lookup-In, In-lookup,
  lookup-build_map, found-build_map,
}
use kilo_clustermesh_operato.Peer.Reconciler.Equality.{peer_spec_equal_refl}
use kilo_clustermesh_operato.Peer.Reconciler.{
  ReconcileError, canonical_of, canonical_peers, peer_spec_equal, report, create_reported,
  create_or_merge, reconcile_one, reconcile_desired, delete_one, delete_orphans, reconcile_peers,
  updating, creating, deleting,
}
pub use Writes.{Stands}
pub use Upserts.{OwnsKey}
use Upserts.{Reflects, reconcile_desired-Stands}
use Orphans.{delete_orphans-Clears}

-- A `range` loop visits every entry of a map once.
pub record VisitsAll (visit : PeerMap → PeerMap) : Type 0 where
  pub same : (m : PeerMap) (e : Text × Peer) → In e (visit m) ↔ In e m
  pub once : (m : PeerMap) → AllPairs KeyDiffers m → AllPairs KeyDiffers (visit m)

module _ {S : Type 0} (client : PeerClient S) (find : S → Text → Option Peer)
    (store : IsPeerStore client find) where
  open client use {create_peer, update_peer, delete_peer}

  -- What the listed peers say of the store.
  listed-Reflects :
      (sel : List (String × Text)) (s : S) (items : List Peer) (d : Peer)
      → client.list_labelled sel s ≡ some items
      → Reflects client find store (build_map items) d s
  listed-Reflects sel s items d listed e found =
      let (member, same) = lookup-build_map d.name e items found in
      (subst (λ n. find s n ≡ some e) same ((store.lists sel s items listed e).0 member).0, same)

  -- The two loops, on the lists the calls returned.
  abbrev pub Converged : List (String × Text) → List Peer → S → S → Type 0
  Converged sel desired s s' =
      ((d : Peer) → lookup_peer d.name (build_map desired) ≡ some d → Stands client find store d s')
      × ((p : Peer)
          → find s p.name ≡ some p
          → matches sel p.labels ≡ true
          → lookup_peer p.name (build_map desired) ≡ none
          → find s' p.name ≡ none)
      × ((k : Text)
          → lookup_peer k (build_map desired) ≡ none
          → ((p : Peer) → find s k ≡ some p → matches sel p.labels ≡ false)
          → find s' k ≡ find s k)

  two_loops-Converged :
      (visit : PeerMap → PeerMap) (visits : VisitsAll visit) (sel : List (String × Text))
      (desired items all : List Peer) (s : S)
      → client.list_labelled sel s ≡ some items
      → ((d : Peer) → In d desired → OwnsKey client find store all d)
      → (reconcile_desired client (visit (build_map desired)) (build_map items) all s).1 ≡ []
      → (delete_orphans client
          (visit (build_map items))
          (build_map desired)
          (reconcile_desired client (visit (build_map desired)) (build_map items) all s).0).1
        ≡ []
      → Converged sel desired s
          (delete_orphans client
            (visit (build_map items))
            (build_map desired)
            (reconcile_desired client (visit (build_map desired)) (build_map items) all s).0).0
  two_loops-Converged visit visits sel desired items all s listed own h1 h2 =
      let wanted = build_map desired in
      let existing = build_map items in
      let w = build_map-IsMap desired in
      let x = build_map-IsMap items in
      let first = reconcile_desired client (visit wanted) existing all s in
      let (stands, kept) =
        reconcile_desired-Stands client find store (visit wanted) existing all s
          (visits.once wanted w.distinct)
          (λ e i.
            let member = (visits.same wanted e).0 i in
            (
              w.named e member,
              own e.1
                  (lookup-build_map e.0 e.1 desired (In-lookup e.0 e.1 wanted w.distinct member)).0,
              listed-Reflects sel s items e.1 listed,
            ))
          h1 in
      let (cleared, others) =
        delete_orphans-Clears client find store (visit existing) wanted first.0
          (λ e i. x.named e ((visits.same existing e).0 i)) (visits.once existing x.distinct) h2 in
      (
        λ d found.
            let (q, here, equal) =
              stands (d.name, d)
                ((visits.same wanted (d.name, d)).1 (lookup-In d.name d wanted found)) in
            (q, others d.name (inr (d, found)) ∙ here, equal),
        λ p stored selected missing.
            let (r, found) =
              found-build_map p items ((store.lists sel s items listed p).1 (stored, selected)) in
            cleared (p.name, r)
              ((visits.same existing (p.name, r)).1 (lookup-In p.name r existing found)) missing,
        λ k missing foreign.
            others k (
              inl (λ e i eq.
                let found = In-lookup e.0 e.1 existing x.distinct ((visits.same existing e).0 i) in
                let (member, name) = lookup-build_map e.0 e.1 items found in
                let (stored, selected) = (store.lists sel s items listed e.1).0 member in
                cc (
                  foreign e.1 (subst (λ n. find s n ≡ some e.1) (name ∙ sym eq) stored),
                  selected,
                )))
            ∙ kept k (λ e i eq.
              cc (In-lookup e.0 e.1 wanted w.distinct ((visits.same wanted e).0 i), missing, eq)),
      )

  -- `reconcile_peers`, run without an error, on a store that behaves as documented, where `range`
  -- visits every entry of a map once and the public key of a desired peer belongs to no peer of
  -- another name: (1) every desired peer, the last of its name, stands in the store with a spec
  -- that `peerSpecEqual` accepts; (2) every stored peer with the labels of the mesh and the source
  -- whose name is not desired is gone; (3) every other object that is not desired is as it was.
  pub reconcile_peers_converges :
      (visit : PeerMap → PeerMap) (mesh source : Text) (desired : List Peer) (s : S)
      → VisitsAll visit
      → ((all : List Peer) (d : Peer)
          → client.list_all s ≡ some all
          → In d desired
          → OwnsKey client find store (canonical_peers [] all) d)
      → (reconcile_peers client visit mesh source desired s).1 ≡ []
      → Converged
          (labels mesh source)
          desired
          s
          (reconcile_peers client visit mesh source desired s).0
  unfolding reconcile_peers
  reconcile_peers_converges visit mesh source desired s visits own h =
      elim (Option-cases (client.list_all s)) [
        | inl failed ↦ cc (rw (failed, reconcile_peers) at h)
        | inr (all, everything) ↦
            elim (Option-cases (client.list_labelled (labels mesh source) s)) [
              | inl failed ↦ cc (rw (everything, reconcile_peers, failed) at h)
              | inr (items, listed) ↦
                  let none_failed =
                    append-eq-nil _ _ (rw (everything, reconcile_peers, listed) at h) in
                  rw (everything, reconcile_peers, listed)
                    (two_loops-Converged visit visits (labels mesh source) desired items
                      (canonical_peers [] all) s listed (λ d i. own all d everything i)
                      none_failed.0 none_failed.1)
            ]
      ]
