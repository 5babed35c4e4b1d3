-- ===== src/Peer/Reconciler/Keys.antt =====
-- `buildAllPeersByPublicKey` of internal/peer/reconciler.go: where the canonical peer of a key comes
-- from.
use kilo_clustermesh_operato.Base.{
  ◌≡◌, sym, ◌∙◌, ap, inl, inr, ◌⊎◌, Option, some, List, [], ◌∷◌, Text, In, str_eq, str_eq_iff,
  str_lt, Bool-cases, some-eq-some,
}
use kilo_clustermesh_operato.Api.{Peer}
use kilo_clustermesh_operato.Peer.Reconciler.Client.{PeerClient, IsPeerStore}
use kilo_clustermesh_operato.Peer.Reconciler.{keep_lowest, canonical_peers, canonical_of}
use kilo_clustermesh_operato.Peer.Reconciler.Converge.{OwnsKey}

In-keep_lowest : (p q : Peer) (acc : List Peer) → In q (keep_lowest p acc) → (q ≡ p) ⊎ In q acc
unfolding keep_lowest
In-keep_lowest p q [] (inl e) = inl e
In-keep_lowest p q [] (inr i) = absurd i
In-keep_lowest p q (r ∷ acc) i = elim (Bool-cases (str_eq r.spec.public_key p.spec.public_key)) [
  | inl hit ↦ elim (Bool-cases (str_lt p.name r.name)) [
    | inl lower ↦ elim (rw (hit, lower, keep_lowest) at i) [ inl e ↦ inl e | inr j ↦ inr (inr j) ]
    | inr higher ↦ inr (rw (hit, higher, keep_lowest) at i)
  ]
  | inr miss ↦ elim (rw (miss, keep_lowest) at i) [
    | inl e ↦ inr (inl e)
    | inr j ↦ elim (In-keep_lowest p q acc j) [ inl e ↦ inl e | inr k ↦ inr (inr k) ]
  ]
]

In-canonical_peers :
    (q : Peer) (acc ps : List Peer) → In q (canonical_peers acc ps) → In q acc ⊎ In q ps
unfolding canonical_peers
In-canonical_peers q acc [] i = inl i
In-canonical_peers q acc (p ∷ ps) i = elim (In-canonical_peers q (keep_lowest p acc) ps i) [
  | inr j ↦ inr (inr j)
  | inl j ↦ elim (In-keep_lowest p q acc j) [ inl e ↦ inr (inl e) | inr k ↦ inl k ]
]

canonical_of-In :
    (key : Text) (c : Peer) (ps : List Peer)
    → canonical_of key ps ≡ some c
    → In c ps × (c.spec.public_key ≡ key)
unfolding canonical_of
canonical_of-In key c [] e = cc
canonical_of-In key c (q ∷ qs) e = elim (Bool-cases (str_eq q.spec.public_key key)) [
  | inl hit ↦
      let same = some-eq-some q c (rw (hit, canonical_of) at e) in
      (
        inl (sym same),
        ap (λ x. x.spec.public_key) (sym same) ∙ (str_eq_iff q.spec.public_key key).0 hit,
      )
  | inr miss ↦ let (i, k) = canonical_of-In key c qs (rw (miss, canonical_of) at e) in (inr i, k)
]

module _ {S : Type 0} (client : PeerClient S) (find : S → Text → Option Peer)
    (store : IsPeerStore client find) where
  -- No stored peer of another name has the public key of `d`.
  abbrev pub KeyIsFree : S → Peer → Type 0
  KeyIsFree s d =
      (q : Peer) → find s q.name ≡ some q → q.spec.public_key ≡ d.spec.public_key → q.name ≡ d.name

  pub KeyIsFree-OwnsKey :
      (s : S) (all : List Peer) (d : Peer)
      → client.list_all s ≡ some all
      → KeyIsFree s d
      → OwnsKey client find store (canonical_peers [] all) d
  KeyIsFree-OwnsKey s all d listed free c e =
      let (i, key) = canonical_of-In d.spec.public_key c (canonical_peers [] all) e in
      elim (In-canonical_peers c [] all i) [
        | inl out ↦ absurd out
        | inr j ↦ free c ((store.lists_all s all listed c).0 j) key
      ]
