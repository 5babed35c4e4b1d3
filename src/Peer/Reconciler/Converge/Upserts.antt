-- ===== src/Peer/Reconciler/Converge/Upserts.antt =====
-- The loop of `reconcileDesired` of internal/peer/reconciler.go.
use kilo_clustermesh_operato.Base.{append-eq-nil}
use kilo_clustermesh_operato.Base.{
  ◌≡◌, ◌≢◌, refl, sym, ◌∙◌, subst, inl, inr, Option, some, List, [], ◌∷◌, Text, In, AllPairs,
  str_eq_iff, Bool-cases, Option-cases,
}
use kilo_clustermesh_operato.Api.{Peer}
use kilo_clustermesh_operato.Peer.Reconciler.Client.{PeerClient, IsPeerStore}
use kilo_clustermesh_operato.Peer.Reconciler.Maps.{PeerMap, lookup_peer, KeyDiffers}
use kilo_clustermesh_operato.Peer.Reconciler.Equality.{peer_spec_equal_refl}
use kilo_clustermesh_operato.Peer.Reconciler.{
  ReconcileError, canonical_of, peer_spec_equal, report, create_reported, create_or_merge,
  reconcile_one, reconcile_desired, updating, creating,
}
use kilo_clustermesh_operato.Peer.Reconciler.Converge.Writes.{Untouched, Stands, updated, created}

module _ {S : Type 0} (client : PeerClient S) (find : S → Text → Option Peer)
    (store : IsPeerStore client find) where
  open client use {create_peer, update_peer, delete_peer}

  -- The desired peer's public key belongs to no peer of another name.
  abbrev pub OwnsKey : List Peer → Peer → Type 0
  OwnsKey all d =
      (canonical : Peer)
      → canonical_of d.spec.public_key all ≡ some canonical
      → canonical.name ≡ d.name

  pub create_or_merge-creates :
      (all : List Peer) (d : Peer) (s : S)
      → OwnsKey all d
      → create_or_merge client d.name d all s ≡ create_reported client d.name d s
  unfolding create_or_merge
  create_or_merge-creates all d s own = elim (Option-cases (canonical_of d.spec.public_key all)) [
    | inl h ↦ rw (h, create_or_merge)
    | inr (c, h) ↦ rw (h, create_or_merge, (str_eq_iff c.name d.name).1 (own c h))
  ]

  -- A result without an error has put `d` in place and touched no other name.
  abbrev pub Lands : Peer → S → S × List ReconcileError → Type 0
  Lands d s r = r.1 ≡ [] → Stands client find store d r.0 × Untouched client find store d.name s r.0

  pub created-Lands : (d : Peer) (s : S) → Lands d s (create_reported client d.name d s)
  unfolding create_reported
  created-Lands d s h =
      let (here, others) = created client find store (creating d.name) d s h in
      ((d, here, peer_spec_equal_refl d.spec), others)

  pub updated-Lands :
      (d e : Peer) (s : S)
      → e.name ≡ d.name
      → Lands d s (report client (updating d.name) (update_peer (record e { spec = d.spec }) s))
  updated-Lands d e s same h =
      let (here, others) =
        updated client find store (updating d.name) (record e { spec = d.spec }) s h in
      (
        (
          record e { spec = d.spec },
          subst
              (λ n.
                find
                  (report client (updating d.name) (update_peer (record e { spec = d.spec }) s)).0 n
                ≡ some (record e { spec = d.spec }))
              same here,
          peer_spec_equal_refl d.spec,
        ),
        λ k ne. others k (λ eq. ne (eq ∙ same)),
      )

  -- What the map of existing peers says of the store at the peer's name.
  abbrev pub Reflects : PeerMap → Peer → S → Type 0
  Reflects existing d s =
      (e : Peer)
      → lookup_peer d.name existing ≡ some e
      → (find s d.name ≡ some e) × (e.name ≡ d.name)

  pub reconcile_one-Lands :
      (existing : PeerMap) (all : List Peer) (d : Peer) (s : S)
      → OwnsKey all d
      → Reflects existing d s
      → Lands d s (reconcile_one client d.name d existing all s)
  unfolding reconcile_one
  reconcile_one-Lands existing all d s own old = elim (Option-cases (lookup_peer d.name existing)) [
    | inl missing ↦
        rw (missing, reconcile_one, create_or_merge-creates all d s own) (created-Lands d s)
    | inr (e, found) ↦ elim (Bool-cases (peer_spec_equal e.spec d.spec)) [
      | inl equal ↦
          rw (found, reconcile_one, equal) (λ h. ((e, (old e found).0, equal), λ k ne. refl))
      | inr differs ↦ rw (found, reconcile_one, differs) (updated-Lands d e s (old e found).1)
    ]
  ]

  -- The entries of the loop: each under its name, with its own public key, and not yet touched.
  abbrev pub Pending : PeerMap → List Peer → S → Text × Peer → Type 0
  Pending existing all s e = (e.0 ≡ e.1.name) × OwnsKey all e.1 × Reflects existing e.1 s

  pub Untouched-Reflects :
      (existing : PeerMap) (d : Peer) (n : Text) (s s' : S)
      → Untouched client find store n s s'
      → d.name ≢ n
      → Reflects existing d s
      → Reflects existing d s'
  Untouched-Reflects existing d n s s' u ne old e found =
      let (here, same) = old e found in (u d.name ne ∙ here, same)

  -- The loop of `reconcileDesired`.
  pub reconcile_desired-Stands :
      (todo existing : PeerMap) (all : List Peer) (s : S)
      → AllPairs KeyDiffers todo
      → ((e : Text × Peer) → In e todo → Pending existing all s e)
      → (reconcile_desired client todo existing all s).1 ≡ []
      → ((e : Text × Peer)
          → In e todo
          → Stands client find store e.1 (reconcile_desired client todo existing all s).0)
        × ((k : Text)
            → ((e : Text × Peer) → In e todo → k ≢ e.0)
            → find (reconcile_desired client todo existing all s).0 k ≡ find s k)
  unfolding reconcile_desired
  reconcile_desired-Stands [] existing all s apart pending h = (λ e i. absurd i, λ k out. refl)
  reconcile_desired-Stands ((n, d) ∷ todo) existing all s apart pending h =
      let (key, own, old) = pending (n, d) (inl refl) in
      let one = reconcile_one client n d existing all s in
      let (h1, h2) = append-eq-nil one.1 _ h in
      let lands =
        subst (λ m. Lands d s (reconcile_one client m d existing all s)) (sym key)
          (reconcile_one-Lands existing all d s own old) h1 in
      let (later, rest) =
        reconcile_desired-Stands todo existing all one.0 apart.1
          (λ e i.
            let (key', own', old') = pending e (inr i) in
            (
              key',
              own',
              Untouched-Reflects existing e.1 d.name s one.0 lands.1
                  (λ eq. apart.0 e i (key ∙ sym eq ∙ sym key')) old',
            ))
          h2 in
      (
        λ e i. elim i [
          | inl same ↦
              rw same
                (lands.0.0, rest d.name (λ e' j eq. apart.0 e' j (key ∙ eq)) ∙ lands.0.1, lands.0.2)
          | inr j ↦ later e j
        ],
        λ k out.
            rest k (λ e i. out e (inr i)) ∙ lands.1 k (λ eq. out (n, d) (inl refl) (eq ∙ sym key)),
      )
