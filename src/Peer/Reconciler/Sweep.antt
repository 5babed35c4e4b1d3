-- ===== src/Peer/Reconciler/Sweep.antt =====
-- `DeleteStaleSourceClusters` of internal/peer/reconciler.go: the store after a run without an error.
use kilo_clustermesh_operato.Base.{append-eq-nil, ◌↔◌}
use kilo_clustermesh_operato.Base.{
  ◌≡◌, ◌≢◌, refl, ◌∙◌, subst, inl, inr, Bool, true, false, Option, none, some, List, [], ◌∷◌,
  if◌then◌else◌, Text, In, str_eq, str_eq_iff, str_eq_refl, arith, Bool-cases, Option-cases,
  value_at, any, any-str_eq_iff,
}
use kilo_clustermesh_operato.Api.{Peer}
use kilo_clustermesh_operato.Peer.Naming.{label_mesh, label_source_cluster}
use kilo_clustermesh_operato.Peer.Reconciler.Client.{
  PeerClient, IsPeerStore, ApiError, not_found, failed, matches,
}
use kilo_clustermesh_operato.Peer.Reconciler.{
  ReconcileError, deleting, is_stale, report_unless_missing, delete_where,
  delete_stale_source_clusters,
}

is_stale-true :
    (valid : List Text) (p : Peer)
    → (In (value_at label_source_cluster p.labels) valid → ⊥)
    → is_stale valid p ≡ true
unfolding is_stale
is_stale-true valid p out =
    let source_name = value_at label_source_cluster p.labels in
    elim (Bool-cases (any (str_eq source_name) valid)) [
      | inl listed ↦ absurd (out ((any-str_eq_iff source_name valid).0 listed))
      | inr e ↦ rw e refl
    ]

is_stale-false :
    (valid : List Text) (p : Peer)
    → In (value_at label_source_cluster p.labels) valid
    → is_stale valid p ≡ false
unfolding is_stale
is_stale-false valid p i =
    rw ((any-str_eq_iff (value_at label_source_cluster p.labels) valid).1 i) refl

module _ {S : Type 0} (client : PeerClient S) (find : S → Text → Option Peer)
    (store : IsPeerStore client find) where
  open client use {delete_peer}

  -- A delete that is not reported as failed leaves no object of that name and touches no other.
  unreported :
      (e : ReconcileError) (p : Peer) (s : S)
      → (report_unless_missing client e (delete_peer p s)).1 ≡ []
      → (n : Text)
      → find (report_unless_missing client e (delete_peer p s)).0 n
        ≡ (if str_eq p.name n then none else find s n)
  unfolding report_unless_missing
  unreported e p s h n = go (delete_peer p s) refl h
    where
      go :
          (r : S × Option ApiError)
          → delete_peer p s ≡ r
          → (report_unless_missing client e r).1 ≡ []
          → find (report_unless_missing client e r).0 n
            ≡ (if str_eq p.name n then none else find s n)
      go (s', none) same h' = store.deletes p s s' same n
      go (s', some failed) same h' = cc
      go (s', some not_found) same h' =
          let (gone, kept) = store.missing p s s' same in
          ground (arith, kept n, str_eq_iff p.name n)

  -- What a loop without a reported error has done to the store.
  abbrev Swept : (Peer → Bool) → List Peer → S → S → Type 0
  Swept picked ps s s' =
      ((p : Peer) → In p ps → picked p ≡ true → find s' p.name ≡ none)
      × ((k : Text) → ((p : Peer) → In p ps → picked p ≡ true → p.name ≢ k) → find s' k ≡ find s k)
      × ((k : Text) → find s k ≡ none → find s' k ≡ none)

  delete_where-Swept :
      (picked : Peer → Bool) (ps : List Peer) (s : S)
      → (delete_where client picked ps s).1 ≡ []
      → Swept picked ps s (delete_where client picked ps s).0
  unfolding delete_where
  delete_where-Swept picked [] s h = (λ p i. absurd i, λ k out. refl, λ k gone. gone)
  delete_where-Swept picked (p ∷ ps) s h = elim (Bool-cases (picked p)) [
    | inr skipped ↦
        let (gone, kept, stays) =
          delete_where-Swept picked ps s (rw (skipped, delete_where) at h) in
        rw (skipped, delete_where)
          (
            λ q i hit. elim i [
              | inl same ↦ cc (subst (λ x. picked x ≡ true) same hit, skipped)
              | inr j ↦ gone q j hit
            ],
            λ k out. kept k (λ q i. out q (inr i)),
            stays,
          )
    | inl hit ↦
        let one = report_unless_missing client (deleting p.name) (delete_peer p s) in
        let (h1, h2) = append-eq-nil one.1 _ (rw (hit, delete_where) at h) in
        let effect = unreported (deleting p.name) p s h1 in
        let (gone, kept, stays) = delete_where-Swept picked ps one.0 h2 in
        rw (hit, delete_where)
          (
            λ q i hit'. elim i [
              | inl same ↦ rw same (stays p.name (effect p.name ∙ rw (str_eq_refl p.name)))
              | inr j ↦ gone q j hit'
            ],
            λ k out.
                kept k (λ q i. out q (inr i))
                ∙ ground (arith, effect k, str_eq_iff p.name k, out p (inl refl) hit),
            λ k none_there. stays k (ground (arith, effect k)),
          )
  ]

  -- The objects that a listing shows are swept as the test says, and the others stay.
  pub delete_where-sweeps :
      (listed : Peer → Type 0) (picked : Peer → Bool) (ps : List Peer) (s : S)
      → ((p : Peer) → In p ps ↔ ((find s p.name ≡ some p) × listed p))
      → (delete_where client picked ps s).1 ≡ []
      → ((p : Peer)
          → find s p.name ≡ some p
          → listed p
          → picked p ≡ true
          → find (delete_where client picked ps s).0 p.name ≡ none)
        × ((k : Text)
            → ((p : Peer) → find s k ≡ some p → listed p → picked p ≡ false)
            → find (delete_where client picked ps s).0 k ≡ find s k)
  delete_where-sweeps listed picked ps s shows h =
      let (gone, kept, stays) = delete_where-Swept picked ps s h in
      (
        λ p here l hit. gone p ((shows p).1 (here, l)) hit,
        λ k foreign. kept k (λ p i hit same.
            let (here, l) = (shows p).0 i in
            cc (foreign p (subst (λ n. find s n ≡ some p) same here) l, hit)),
      )

  -- What the loop of `DeleteStaleSourceClusters` deletes, by its test.
  pub delete_stale_source_clusters_lem :
      (mesh_name : Text) (valid : List Text) (s : S)
      → (delete_stale_source_clusters client mesh_name valid s).1 ≡ []
      → ((p : Peer)
          → find s p.name ≡ some p
          → matches ((label_mesh, mesh_name) ∷ []) p.labels ≡ true
          → is_stale valid p ≡ true
          → find (delete_stale_source_clusters client mesh_name valid s).0 p.name ≡ none)
        × ((k : Text)
            → ((p : Peer)
                → find s k ≡ some p
                → matches ((label_mesh, mesh_name) ∷ []) p.labels ≡ true
                → is_stale valid p ≡ false)
            → find (delete_stale_source_clusters client mesh_name valid s).0 k ≡ find s k)
  unfolding delete_stale_source_clusters
  delete_stale_source_clusters_lem mesh_name valid s h =
      elim (Option-cases (client.list_labelled ((label_mesh, mesh_name) ∷ []) s)) [
        | inl failed_ ↦ cc (rw (failed_, delete_stale_source_clusters) at h)
        | inr (items, listed) ↦
            rw (listed, delete_stale_source_clusters)
              (delete_where-sweeps (λ p. matches ((label_mesh, mesh_name) ∷ []) p.labels ≡ true)
                (is_stale valid) items s (store.lists ((label_mesh, mesh_name) ∷ []) s items listed)
                (rw (listed, delete_stale_source_clusters) at h))
      ]

  -- `DeleteStaleSourceClusters`, run without an error on a store that behaves as documented: every
  -- stored peer with the label of the mesh whose source-cluster label is not one of the valid names is
  -- gone, and a name is as it was if the source-cluster label of its peer, where the store has one
  -- with the label of the mesh, is a valid name.
  pub delete_stale_source_clusters_sweeps :
      (mesh_name : Text) (valid : List Text) (s : S)
      → (delete_stale_source_clusters client mesh_name valid s).1 ≡ []
      → ((p : Peer)
          → find s p.name ≡ some p
          → matches ((label_mesh, mesh_name) ∷ []) p.labels ≡ true
          → (In (value_at label_source_cluster p.labels) valid → ⊥)
          → find (delete_stale_source_clusters client mesh_name valid s).0 p.name ≡ none)
        × ((k : Text)
            → ((p : Peer)
                → find s k ≡ some p
                → matches ((label_mesh, mesh_name) ∷ []) p.labels ≡ true
                → In (value_at label_source_cluster p.labels) valid)
            → find (delete_stale_source_clusters client mesh_name valid s).0 k ≡ find s k)
  delete_stale_source_clusters_sweeps mesh_name valid s h =
      let (gone, kept) = delete_stale_source_clusters_lem mesh_name valid s h in
      (
        λ p here labelled stale. gone p here labelled (is_stale-true valid p stale),
        λ k fresh. kept k (λ p here labelled. is_stale-false valid p (fresh p here labelled)),
      )
