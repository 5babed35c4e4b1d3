-- ===== src/Examples/Sync.antt =====
-- A run of `ReconcilePeers` on a server in memory: one peer to update, one to create, one orphan and
-- one peer of a user.
use kilo_clustermesh_operato.Base.{
  true, str_eq, str_lt, lookup, ◌≡◌, refl, sym, subst, ◌∙◌, ap, inl, inr, none, some, List, [], ◌∷◌,
  String, Text, codes, In, some-eq-some,
}
use kilo_clustermesh_operato.Api.{Peer}
use kilo_clustermesh_operato.Peer.Naming.{labels}
use kilo_clustermesh_operato.Peer.Reconciler.{
  reconcile_peers, canonical_peers, canonical_of, reconcile_desired, reconcile_one, peer_spec_equal,
  delete_orphans, delete_one, allowed_ips_equal, create_or_merge, create_reported, endpoint_equal,
  insert_sorted, keep_lowest, report, sort_strings, texts_equal,
}
use kilo_clustermesh_operato.Peer.Reconciler.Maps.{
  PeerMap, build_map, lookup_peer, add_all, set_peer, lookup-build_map,
}
use kilo_clustermesh_operato.Peer.Reconciler.Client.{matches}
use kilo_clustermesh_operato.Peer.Reconciler.Equality.{peer_spec_equal_refl}
use kilo_clustermesh_operato.Peer.Reconciler.Settled.{Settled}
use kilo_clustermesh_operato.Peer.Reconciler.Idle.{reconcile_peers-idle}
use kilo_clustermesh_operato.Peer.Reconciler.Converge.{
  VisitsAll, OwnsKey, Converged, reconcile_peers_converges,
}
use kilo_clustermesh_operato.Examples.Store.{
  selected, serve_update, serve_create, serve_delete, remove_peer, Server, find, server,
  server-IsPeerStore, server_of,
}

abbrev pub peer_of : String → List (String × Text) → String → String → Peer
peer_of n ls key ip = record {
  name = codes n;
  labels = ls;
  spec = record {
    allowed_ips = codes ip ∷ [];
    endpoint = none;
    persistent_keepalive = 0;
    preshared_key = [];
    public_key = codes key;
  };
}

abbrev pub of_source : List (String × Text)
of_source = labels (codes "m") (codes "b")

abbrev pub before : Server
before = server_of (
    peer_of "m--b--n1" of_source "k1" "10.0.0.0/24"
    ∷ peer_of "m--b--n0" of_source "k0" "10.0.1.0/24"
    ∷ peer_of "mine" [] "k9" "10.0.9.0/24"
    ∷ [])

abbrev node_1 : Peer
node_1 = peer_of "m--b--n1" of_source "k1" "10.0.7.0/24"

abbrev node_2 : Peer
node_2 = peer_of "m--b--n2" of_source "k2" "10.0.2.0/24"

abbrev wanted : List Peer
wanted = node_1 ∷ node_2 ∷ []

abbrev in_order : PeerMap → PeerMap
in_order m = m

in_order-VisitsAll : VisitsAll in_order
in_order-VisitsAll = record { same = λ m e. (λ i. i, λ i. i); once = λ m d. d }

abbrev stored : List Peer
stored = selected [] before.0

run_errors : (reconcile_peers server in_order (codes "m") (codes "b") wanted before).1 ≡ []
unfolding reconcile_peers reconcile_desired build_map reconcile_one lookup_peer selected matches
    labels peer_spec_equal serve_update canonical_of canonical_peers serve_create delete_orphans
    delete_one serve_delete str_lt remove_peer add_all set_peer allowed_ips_equal create_or_merge
    create_reported endpoint_equal insert_sorted keep_lowest report sort_strings texts_equal lookup
    str_eq
run_errors = refl

keys :
    (canonical_of (codes "k1") (canonical_peers [] stored)
      ≡ some (peer_of "m--b--n1" of_source "k1" "10.0.0.0/24"))
    × (canonical_of (codes "k2") (canonical_peers [] stored) ≡ none)
unfolding canonical_of canonical_peers keep_lowest selected build_map add_all set_peer str_eq str_lt
    matches labels
keys = (refl, refl)

keys_owned :
    (all : List Peer) (d : Peer)
    → server.list_all before ≡ some all
    → In d wanted
    → OwnsKey server find server-IsPeerStore (canonical_peers [] all) d
keys_owned all d listed member =
    let same : stored ≡ all = some-eq-some stored all listed in
    subst (λ ps. OwnsKey server find server-IsPeerStore (canonical_peers [] ps) d) same
      (elim member [
        | inl h ↦ rw h (λ c e. ap (λ p. p.name) (some-eq-some c _ (sym e ∙ keys.0)))
        | inr later ↦ elim later [ inl h ↦ rw h (λ c e. cc (e, keys.1)) | inr out ↦ absurd out ]
      ])

reconcile_peers_converges_example :
    Converged server find server-IsPeerStore
      (labels (codes "m") (codes "b"))
      wanted
      before
      (reconcile_peers server in_order (codes "m") (codes "b") wanted before).0
reconcile_peers_converges_example =
    reconcile_peers_converges server find server-IsPeerStore in_order (codes "m") (codes "b") wanted
      before in_order-VisitsAll keys_owned run_errors

-- A server that holds the desired peers.
abbrev steady : Server
steady = server_of wanted

labels_match :
    (d q : Peer)
    → lookup_peer d.name (build_map wanted) ≡ some d
    → find steady d.name ≡ some q
    → matches (labels (codes "m") (codes "b")) q.labels ≡ true
unfolding matches labels lookup str_eq
labels_match d q found here = elim (lookup-build_map d.name q wanted here).0 [
  | inl e ↦ rw e refl
  | inr later ↦ elim later [ inl e ↦ rw e refl | inr out ↦ absurd out ]
]

steady-Settled :
    Settled server find server-IsPeerStore (labels (codes "m") (codes "b")) wanted steady
steady-Settled = (
  λ d found. (d, found, peer_spec_equal_refl d.spec),
  λ p here selected missing. cc (here, missing),
)

reconcile_peers-idle_example :
    reconcile_peers server in_order (codes "m") (codes "b") wanted steady ≡ (steady, [])
reconcile_peers-idle_example =
    reconcile_peers-idle server find server-IsPeerStore in_order (codes "m") (codes "b") wanted
      (selected [] steady.0) (selected (labels (codes "m") (codes "b")) steady.0) steady
      in_order-VisitsAll steady-Settled labels_match refl refl
