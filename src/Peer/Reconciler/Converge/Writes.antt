-- ===== src/Peer/Reconciler/Converge/Writes.antt =====
-- The writes of the reconciler (internal/peer/reconciler.go) to a store.
use kilo_clustermesh_operato.Base.{
  ◌≡◌, ◌≢◌, refl, ◌∙◌, true, Option, none, some, [], Text, str_eq_iff, str_eq_refl, arith,
}
use kilo_clustermesh_operato.Api.{Peer}
use kilo_clustermesh_operato.Peer.Reconciler.Client.{PeerClient, IsPeerStore, ApiError}
use kilo_clustermesh_operato.Peer.Reconciler.{ReconcileError, peer_spec_equal, report}

module _ {S : Type 0} (client : PeerClient S) (find : S → Text → Option Peer)
    (store : IsPeerStore client find) where
  open client use {create_peer, update_peer, delete_peer}

  -- Objects other than `n` are as they were.
  abbrev pub Untouched : Text → S → S → Type 0
  Untouched n s s' = (k : Text) → k ≢ n → find s' k ≡ find s k

  -- The desired peer stands in the store, as far as `peerSpecEqual` sees.
  abbrev pub Stands : Peer → S → Type 0
  Stands d s = (q : Peer) × (find s d.name ≡ some q) × (peer_spec_equal q.spec d.spec ≡ true)

  pub report-none :
      (e : ReconcileError) (r : S × Option ApiError)
      → (report client e r).1 ≡ []
      → (r ≡ ((report client e r).0, none))
  unfolding report
  report-none e (s, none) h = refl
  report-none e (s, some x) h = cc

  pub updated :
      (e : ReconcileError) (p : Peer) (s : S)
      → (report client e (update_peer p s)).1 ≡ []
      → (find (report client e (update_peer p s)).0 p.name ≡ some p)
        × Untouched p.name s (report client e (update_peer p s)).0
  updated e p s h =
      let law = store.updates p s (report client e (update_peer p s)).0 (report-none e _ h) in
      (law p.name ∙ rw (str_eq_refl p.name), λ k ne. ground (arith, law k, str_eq_iff p.name k))

  pub created :
      (e : ReconcileError) (p : Peer) (s : S)
      → (report client e (create_peer p s)).1 ≡ []
      → (find (report client e (create_peer p s)).0 p.name ≡ some p)
        × Untouched p.name s (report client e (create_peer p s)).0
  created e p s h =
      let law = store.creates p s (report client e (create_peer p s)).0 (report-none e _ h) in
      (law p.name ∙ rw (str_eq_refl p.name), λ k ne. ground (arith, law k, str_eq_iff p.name k))

  pub deleted :
      (e : ReconcileError) (p : Peer) (s : S)
      → (report client e (delete_peer p s)).1 ≡ []
      → (find (report client e (delete_peer p s)).0 p.name ≡ none)
        × Untouched p.name s (report client e (delete_peer p s)).0
  deleted e p s h =
      let law = store.deletes p s (report client e (delete_peer p s)).0 (report-none e _ h) in
      (law p.name ∙ rw (str_eq_refl p.name), λ k ne. ground (arith, law k, str_eq_iff p.name k))
