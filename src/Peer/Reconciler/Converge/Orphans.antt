-- ===== src/Peer/Reconciler/Converge/Orphans.antt =====
-- The loop of `deleteOrphans` of internal/peer/reconciler.go.
use kilo_clustermesh_operato.Base.{append-eq-nil}
use kilo_clustermesh_operato.Base.{
  ◌≡◌, ◌≢◌, refl, sym, ◌∙◌, subst, inl, inr, ◌⊎◌, Option, none, some, [], ◌∷◌, Text, In, AllPairs,
  Option-cases,
}
use kilo_clustermesh_operato.Api.{Peer}
use kilo_clustermesh_operato.Peer.Reconciler.Client.{PeerClient, IsPeerStore}
use kilo_clustermesh_operato.Peer.Reconciler.Maps.{PeerMap, lookup_peer, KeyDiffers}
use kilo_clustermesh_operato.Peer.Reconciler.{report, delete_one, delete_orphans, deleting}
use kilo_clustermesh_operato.Peer.Reconciler.Converge.Writes.{deleted}

module _ {S : Type 0} (client : PeerClient S) (find : S → Text → Option Peer)
    (store : IsPeerStore client find) where
  open client use {create_peer, update_peer, delete_peer}

  -- One round of `deleteOrphans` without an error.
  pub delete_one-Clears :
      (n : Text) (p : Peer) (wanted : PeerMap) (s : S)
      → n ≡ p.name
      → (delete_one client n p wanted s).1 ≡ []
      → (lookup_peer n wanted ≡ none → find (delete_one client n p wanted s).0 n ≡ none)
        × ((k : Text)
            → ((k ≢ n) ⊎ ((d : Peer) × (lookup_peer k wanted ≡ some d)))
            → find (delete_one client n p wanted s).0 k ≡ find s k)
  unfolding delete_one
  delete_one-Clears n p wanted s key h = elim (Option-cases (lookup_peer n wanted)) [
    | inr (d, found) ↦ rw (found, delete_one) (λ missing. cc, λ k side. refl)
    | inl missing ↦
        let (gone, others) =
          deleted client find store (deleting n) p s (rw (missing, delete_one) at h) in
        rw (missing, delete_one)
          (
            λ m.
                subst (λ x. find (report client (deleting n) (delete_peer p s)).0 x ≡ none)
                  (sym key) gone,
            λ k side. others k (elim side [
              | inl ne ↦ λ eq. ne (eq ∙ sym key)
              | inr (d, found) ↦ λ eq. cc (key, eq, missing, found)
            ]),
          )
  ]

  -- The loop of `deleteOrphans`.
  pub delete_orphans-Clears :
      (todo wanted : PeerMap) (s : S)
      → ((e : Text × Peer) → In e todo → e.0 ≡ e.1.name)
      → AllPairs KeyDiffers todo
      → (delete_orphans client todo wanted s).1 ≡ []
      → ((e : Text × Peer)
          → In e todo
          → lookup_peer e.0 wanted ≡ none
          → find (delete_orphans client todo wanted s).0 e.0 ≡ none)
        × ((k : Text)
            → (((e : Text × Peer) → In e todo → k ≢ e.0)
                ⊎ ((d : Peer) × (lookup_peer k wanted ≡ some d)))
            → find (delete_orphans client todo wanted s).0 k ≡ find s k)
  unfolding delete_orphans
  delete_orphans-Clears [] wanted s named apart h = (λ e i. absurd i, λ k side. refl)
  delete_orphans-Clears ((n, p) ∷ todo) wanted s named apart h =
      let one = delete_one client n p wanted s in
      let (h1, h2) = append-eq-nil one.1 _ h in
      let (clears, others) = delete_one-Clears n p wanted s (named (n, p) (inl refl)) h1 in
      let (later, rest) =
        delete_orphans-Clears todo wanted one.0 (λ e i. named e (inr i)) apart.1 h2 in
      (
        λ e i. elim i [
          | inl same ↦
              rw same (λ missing. rest n (inl (λ e' j eq. apart.0 e' j eq)) ∙ clears missing)
          | inr j ↦ later e j
        ],
        λ k side. elim side [
          | inl out ↦ rest k (inl (λ e i. out e (inr i))) ∙ others k (inl (out (n, p) (inl refl)))
          | inr found ↦ rest k (inr found) ∙ others k (inr found)
        ],
      )
