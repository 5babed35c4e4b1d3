-- ===== src/Peer/Reconciler.antt =====
-- internal/peer/reconciler.go: bringing the peers of one source cluster on a target cluster to the
-- desired set. The cluster's API is an interface; a Go map is a list of entries with distinct keys,
-- and the order of a `range` loop over it is a parameter.
pub mod Client
pub mod Maps
pub mod Equality
pub mod Converge
pub mod Merge
pub mod Sweep
pub mod Settled
pub mod Frame
pub mod Idle
pub mod Keys
use kilo_clustermesh_operato.Base.{
  ℕ, Bool, true, false, ◌&&◌, ◌||◌, not, Option, none, some, List, [], ◌∷◌, ◌++◌, ◌==◌, String,
  if◌then◌else◌, Text, str_eq, str_lt, length, any, value_at,
}
use kilo_clustermesh_operato.Api.{Peer, PeerSpec, PeerEndpoint, DnsOrIp}
use kilo_clustermesh_operato.Peer.Naming.{labels, label_mesh, label_source_cluster}
use Client.{PeerClient, ApiError, not_found, failed}
use Maps.{PeerMap, lookup_peer, set_peer, build_map}

pub data ReconcileError : Type 0 where
  listing_all listing_existing : ReconcileError
  updating creating deleting : Text → ReconcileError
  merging : Text → Text → ReconcileError

-- `sort.Strings`
unfoldable pub insert_sorted : Text → List Text → List Text
insert_sorted s [] = s ∷ []
insert_sorted s (t ∷ ts) = if str_lt t s then t ∷ insert_sorted s ts else s ∷ t ∷ ts

unfoldable pub sort_strings : List Text → List Text
unfolding insert_sorted
sort_strings [] = []
sort_strings (s ∷ ss) = insert_sorted s (sort_strings ss)

-- `reflect.DeepEqual` on slices of strings of the same length.
unfoldable pub texts_equal : List Text → List Text → Bool
texts_equal [] [] = true
texts_equal [] (t ∷ ts) = false
texts_equal (s ∷ ss) [] = false
texts_equal (s ∷ ss) (t ∷ ts) = str_eq s t && texts_equal ss ts

-- `allowedIPsEqual`
unfoldable pub allowed_ips_equal : List Text → List Text → Bool
unfolding sort_strings texts_equal
allowed_ips_equal ips_a ips_b =
    if length ips_a == length ips_b
    then texts_equal (sort_strings ips_a) (sort_strings ips_b)
    else false

-- `reflect.DeepEqual` on endpoints.
unfoldable pub endpoint_equal : Option PeerEndpoint → Option PeerEndpoint → Bool
endpoint_equal none none = true
endpoint_equal none (some f) = false
endpoint_equal (some e) none = false
endpoint_equal (some e) (some f) =
    str_eq e.dns_or_ip.dns f.dns_or_ip.dns
    && str_eq e.dns_or_ip.ip f.dns_or_ip.ip
    && e.port == f.port

-- `peerSpecEqual`
unfoldable pub peer_spec_equal : PeerSpec → PeerSpec → Bool
unfolding allowed_ips_equal endpoint_equal
peer_spec_equal a b =
    str_eq a.public_key b.public_key
    && a.persistent_keepalive == b.persistent_keepalive
    && str_eq a.preshared_key b.preshared_key
    && endpoint_equal a.endpoint b.endpoint
    && allowed_ips_equal a.allowed_ips b.allowed_ips

-- The keys of the set `seen` of `mergeAllowedIPs`.
unfoldable pub union_into : List Text → List Text → List Text
union_into seen [] = seen
union_into seen (ip ∷ ips) = union_into (if any (str_eq ip) seen then seen else ip ∷ seen) ips

-- `mergeAllowedIPs`
unfoldable pub merge_allowed_ips : List Text → List Text → List Text
unfolding union_into sort_strings
merge_allowed_ips a b = sort_strings (union_into (union_into [] a) b)

-- One round of `buildAllPeersByPublicKey`: the peer with the lowest name stays.
unfoldable pub keep_lowest : Peer → List Peer → List Peer
keep_lowest p [] = p ∷ []
keep_lowest p (q ∷ qs) =
    if str_eq q.spec.public_key p.spec.public_key
    then (if str_lt p.name q.name then p ∷ qs else q ∷ qs)
    else q ∷ keep_lowest p qs

-- The loop of `buildAllPeersByPublicKey`; the map is kept as the list of its values.
unfoldable pub canonical_peers : List Peer → List Peer → List Peer
unfolding keep_lowest
canonical_peers acc [] = acc
canonical_peers acc (p ∷ ps) = canonical_peers (keep_lowest p acc) ps

-- `allByPubKey[key]`
unfoldable pub canonical_of : Text → List Peer → Option Peer
canonical_of key [] = none
canonical_of key (q ∷ qs) = if str_eq q.spec.public_key key then some q else canonical_of key qs

-- The test of `DeleteStaleSourceClusters`: the source-cluster label names no valid source.
unfoldable pub is_stale : List Text → Peer → Bool
is_stale valid p = not (any (str_eq (value_at label_source_cluster p.labels)) valid)

module _ {S : Type 0} (client : PeerClient S) where
  open client use {list_all, list_labelled, create_peer, update_peer, delete_peer}

  -- A failed call as an error of the reconciliation.
  unfoldable pub report : ReconcileError → S × Option ApiError → S × List ReconcileError
  report e (s, none) = (s, [])
  report e (s, some cause) = (s, e ∷ [])

  -- `mergeIntoCanonical`
  unfoldable pub merge_into_canonical : Peer → List Text → Text → S → S × List ReconcileError
  unfolding report
  merge_into_canonical canonical new_ips colliding_name s =
      let merged = merge_allowed_ips canonical.spec.allowed_ips new_ips in
      if allowed_ips_equal merged canonical.spec.allowed_ips
      then (s, [])
      else report (merging canonical.name colliding_name) (
          update_peer (record canonical { spec = record (canonical.spec) { allowed_ips = merged } })
            s)

  unfoldable pub create_reported : Text → Peer → S → S × List ReconcileError
  unfolding report
  create_reported name desired s = report (creating name) (create_peer desired s)

  -- `createOrMerge`
  unfoldable pub create_or_merge : Text → Peer → List Peer → S → S × List ReconcileError
  unfolding merge_into_canonical create_reported
  create_or_merge name desired all s = elim (canonical_of desired.spec.public_key all) [
    | none ↦ create_reported name desired s
    | some canonical ↦
        if str_eq canonical.name name
        then create_reported name desired s
        else merge_into_canonical canonical desired.spec.allowed_ips name s
  ]

  -- One round of `reconcileDesired`.
  unfoldable pub reconcile_one : Text → Peer → PeerMap → List Peer → S → S × List ReconcileError
  unfolding create_or_merge report
  reconcile_one name desired existing all s = elim (lookup_peer name existing) [
    | none ↦ create_or_merge name desired all s
    | some e ↦
        if peer_spec_equal e.spec desired.spec
        then (s, [])
        else report (updating name) (update_peer (record e { spec = desired.spec }) s)
  ]

  -- `reconcileDesired`, over the entries in the order visited.
  unfoldable pub reconcile_desired : PeerMap → PeerMap → List Peer → S → S × List ReconcileError
  reconcile_desired [] existing all s = (s, [])
  reconcile_desired ((name, desired) ∷ rest) existing all s =
      let (s', errs) = reconcile_one name desired existing all s in
      let (s'', errs') = reconcile_desired rest existing all s' in (s'', errs ++ errs')

  -- One round of `deleteOrphans`.
  unfoldable pub delete_one : Text → Peer → PeerMap → S → S × List ReconcileError
  unfolding report
  delete_one name existing desired s = elim (lookup_peer name desired) [
    | some wanted ↦ (s, [])
    | none ↦ report (deleting name) (delete_peer existing s)
  ]

  -- `deleteOrphans`, over the entries in the order visited.
  unfoldable pub delete_orphans : PeerMap → PeerMap → S → S × List ReconcileError
  delete_orphans [] desired s = (s, [])
  delete_orphans ((name, existing) ∷ rest) desired s =
      let (s', errs) = delete_one name existing desired s in
      let (s'', errs') = delete_orphans rest desired s' in (s'', errs ++ errs')

  -- `ReconcilePeers`; `visit` is the order in which `range` visits a map. No error is `[]`.
  unfoldable pub reconcile_peers :
      (PeerMap → PeerMap) → Text → Text → List Peer → S → S × List ReconcileError
  reconcile_peers visit mesh_name source_cluster desired s = elim (list_all s) [
    | none ↦ (s, listing_all ∷ [])
    | some everything ↦ elim (list_labelled (labels mesh_name source_cluster) s) [
      | none ↦ (s, listing_existing ∷ [])
      | some items ↦
          let wanted = build_map desired in
          let existing = build_map items in
          let (s', errs) =
            reconcile_desired (visit wanted) existing (canonical_peers [] everything) s in
          let (s'', errs') = delete_orphans (visit existing) wanted s' in (s'', errs ++ errs')
    ]
  ]

  -- A failed delete that is not `IsNotFound`.
  unfoldable pub report_unless_missing :
      ReconcileError → S × Option ApiError → S × List ReconcileError
  report_unless_missing e (s, none) = (s, [])
  report_unless_missing e (s, some not_found) = (s, [])
  report_unless_missing e (s, some failed) = (s, e ∷ [])

  -- The loop of `DeleteStaleSourceClusters`: the peers that the test picks are deleted.
  unfoldable pub delete_where : (Peer → Bool) → List Peer → S → S × List ReconcileError
  unfolding report_unless_missing
  delete_where picked [] s = (s, [])
  delete_where picked (p ∷ ps) s =
      let kept = delete_where picked ps s in
      let (s', errs) = report_unless_missing (deleting p.name) (delete_peer p s) in
      let (s'', errs') = delete_where picked ps s' in
      if picked p then (s'', errs ++ errs') else kept

  -- `DeleteStaleSourceClusters`
  unfoldable pub delete_stale_source_clusters : Text → List Text → S → S × List ReconcileError
  unfolding delete_where is_stale
  delete_stale_source_clusters mesh_name valid s =
      elim (list_labelled ((label_mesh, mesh_name) ∷ []) s) [
        | none ↦ (s, listing_existing ∷ [])
        | some items ↦ delete_where (is_stale valid) items s
      ]
