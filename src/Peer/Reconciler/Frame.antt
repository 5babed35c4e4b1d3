-- ===== src/Peer/Reconciler/Frame.antt =====
-- internal/peer/reconciler.go: what a run leaves alone, whatever it returns.
use kilo_clustermesh_operato.Base.{
  inl, inr, Bool, Option, none, some, List, [], ◌∷◌, Text, str_eq, Bool-cases, Option-cases,
}
use kilo_clustermesh_operato.Api.{Peer}
use kilo_clustermesh_operato.Peer.Naming.{labels, label_mesh}
use kilo_clustermesh_operato.Peer.Reconciler.Client.{PeerClient, ApiError, not_found, failed}
use kilo_clustermesh_operato.Peer.Reconciler.Maps.{PeerMap, lookup_peer, build_map}
use kilo_clustermesh_operato.Peer.Reconciler.{
  ReconcileError, report, create_reported, merge_into_canonical, create_or_merge, reconcile_one,
  reconcile_desired, delete_one, delete_orphans, reconcile_peers, report_unless_missing,
  delete_where, delete_stale_source_clusters, canonical_of, canonical_peers, merge_allowed_ips,
  allowed_ips_equal, peer_spec_equal, is_stale,
}

-- No write of the client, failed or not, ends `P`.
pub record Keeps {S : Type 0} (client : PeerClient S) (P : S → Type 0) : Type 0 where
  pub creates : (p : Peer) (s : S) → P s → P (client.create_peer p s).0
  pub updates : (p : Peer) (s : S) → P s → P (client.update_peer p s).0
  pub deletes : (p : Peer) (s : S) → P s → P (client.delete_peer p s).0

module _ {S : Type 0} (client : PeerClient S) (P : S → Type 0) (keeps : Keeps client P) where
  open client use {create_peer, update_peer, delete_peer}

  report-keeps : (e : ReconcileError) (r : S × Option ApiError) → P r.0 → P (report client e r).0
  unfolding report
  report-keeps e (s, none) h = h
  report-keeps e (s, some x) h = h

  unless_missing-keeps :
      (e : ReconcileError) (r : S × Option ApiError)
      → P r.0
      → P (report_unless_missing client e r).0
  unfolding report_unless_missing
  unless_missing-keeps e (s, none) h = h
  unless_missing-keeps e (s, some not_found) h = h
  unless_missing-keeps e (s, some failed) h = h

  created-keeps : (n : Text) (d : Peer) (s : S) → P s → P (create_reported client n d s).0
  unfolding create_reported
  created-keeps n d s h = report-keeps _ _ (keeps.creates d s h)

  merge-keeps :
      (c : Peer) (ips : List Text) (n : Text) (s : S)
      → P s
      → P (merge_into_canonical client c ips n s).0
  unfolding merge_into_canonical
  merge-keeps c ips n s h =
      elim (Bool-cases
        (allowed_ips_equal (merge_allowed_ips c.spec.allowed_ips ips) c.spec.allowed_ips)) [
          | inl same ↦ rw same h
          | inr new ↦ rw new (report-keeps _ _ (keeps.updates _ s h))
        ]

  create_or_merge-keeps :
      (n : Text) (d : Peer) (all : List Peer) (s : S) → P s → P (create_or_merge client n d all s).0
  unfolding create_or_merge
  create_or_merge-keeps n d all s h = elim (Option-cases (canonical_of d.spec.public_key all)) [
    | inl e ↦ rw (e, create_or_merge) (created-keeps n d s h)
    | inr (c, e) ↦ elim (Bool-cases (str_eq c.name n)) [
      | inl hit ↦ rw (e, hit, create_or_merge) (created-keeps n d s h)
      | inr miss ↦ rw (e, miss, create_or_merge) (merge-keeps c d.spec.allowed_ips n s h)
    ]
  ]

  reconcile_one-keeps :
      (n : Text) (d : Peer) (existing : PeerMap) (all : List Peer) (s : S)
      → P s
      → P (reconcile_one client n d existing all s).0
  unfolding reconcile_one
  reconcile_one-keeps n d existing all s h = elim (Option-cases (lookup_peer n existing)) [
    | inl e ↦ rw (e, reconcile_one) (create_or_merge-keeps n d all s h)
    | inr (x, e) ↦ elim (Bool-cases (peer_spec_equal x.spec d.spec)) [
      | inl same ↦ rw (e, same, reconcile_one) h
      | inr new ↦ rw (e, new, reconcile_one) (report-keeps _ _ (keeps.updates _ s h))
    ]
  ]

  reconcile_desired-keeps :
      (wanted existing : PeerMap) (all : List Peer) (s : S)
      → P s
      → P (reconcile_desired client wanted existing all s).0
  unfolding reconcile_desired
  reconcile_desired-keeps [] existing all s h = h
  reconcile_desired-keeps ((n, d) ∷ rest) existing all s h =
      reconcile_desired-keeps rest existing all _ (reconcile_one-keeps n d existing all s h)

  delete_one-keeps :
      (n : Text) (x : Peer) (wanted : PeerMap) (s : S) → P s → P (delete_one client n x wanted s).0
  unfolding delete_one
  delete_one-keeps n x wanted s h = elim (Option-cases (lookup_peer n wanted)) [
    | inl e ↦ rw (e, delete_one) (report-keeps _ _ (keeps.deletes x s h))
    | inr (y, e) ↦ rw (e, delete_one) h
  ]

  delete_orphans-keeps :
      (existing wanted : PeerMap) (s : S) → P s → P (delete_orphans client existing wanted s).0
  unfolding delete_orphans
  delete_orphans-keeps [] wanted s h = h
  delete_orphans-keeps ((n, x) ∷ rest) wanted s h =
      delete_orphans-keeps rest wanted _ (delete_one-keeps n x wanted s h)

  pub reconcile_peers-keeps :
      (visit : PeerMap → PeerMap) (mesh source : Text) (desired : List Peer) (s : S)
      → P s
      → P (reconcile_peers client visit mesh source desired s).0
  unfolding reconcile_peers
  reconcile_peers-keeps visit mesh source desired s h = elim (Option-cases (client.list_all s)) [
    | inl e ↦ rw (e, reconcile_peers) h
    | inr (all, e) ↦ elim (Option-cases (client.list_labelled (labels mesh source) s)) [
      | inl f ↦ rw (e, reconcile_peers, f) h
      | inr (items, f) ↦
          rw (e, reconcile_peers, f)
            (delete_orphans-keeps (visit (build_map items)) (build_map desired) _ (
              reconcile_desired-keeps (visit (build_map desired)) (build_map items)
                (canonical_peers [] all) s h))
    ]
  ]

  pub delete_where-keeps :
      (picked : Peer → Bool) (ps : List Peer) (s : S) → P s → P (delete_where client picked ps s).0
  unfolding delete_where
  delete_where-keeps picked [] s h = h
  delete_where-keeps picked (p ∷ ps) s h = elim (Bool-cases (picked p)) [
    | inl hit ↦
        rw hit (delete_where-keeps picked ps _ (unless_missing-keeps _ _ (keeps.deletes p s h)))
    | inr miss ↦ rw miss (delete_where-keeps picked ps s h)
  ]

  pub delete_stale-keeps :
      (mesh : Text) (valid : List Text) (s : S)
      → P s
      → P (delete_stale_source_clusters client mesh valid s).0
  unfolding delete_stale_source_clusters
  delete_stale-keeps mesh valid s h =
      elim (Option-cases (client.list_labelled ((label_mesh, mesh) ∷ []) s)) [
        | inl e ↦ rw (e, delete_stale_source_clusters) h
        | inr (items, e) ↦
            rw (e, delete_stale_source_clusters) (delete_where-keeps (is_stale valid) items s h)
      ]
