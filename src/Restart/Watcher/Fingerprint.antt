-- ===== src/Restart/Watcher/Fingerprint.antt =====
-- The fingerprint of internal/restart/watcher.go, and when `Reconcile` cancels.
use kilo_clustermesh_operato.Base.{
  ◌≡◌, ◌↔◌, refl, sym, ap, subst, ◌∙◌, inl, inr, true, false, some, List, [], ◌∷◌, some-eq-some, In,
  AllPairs, str_eq, str_eq_iff, str_lt, str_lt_asym, str_lt_total, sorted_unique, Bool-cases,
}
use kilo_clustermesh_operato.Api.{ClusterMesh}
use kilo_clustermesh_operato.Restart.Watcher.Refs.{
  NamesDiffer, EntryNamesDiffer, entries_of, IsRef, unsorted_refs_iff, NamesDiffer-unsorted_refs,
}
use kilo_clustermesh_operato.Restart.Watcher.{
  ClusterRef, Tools, SecretVersions, unsorted_refs, collect_refs, compute_fingerprint,
  ChangeWatcher, watch,
}

-- The documented behaviour: the sort keeps the refs, none behind one with a later name, and of refs
-- with distinct names it keeps them distinct.
pub record IsSort (tools : Tools) : Type 0 where
  pub members :
      (refs : List ClusterRef) (x : ClusterRef) → In x (tools.sort_by_name refs) ↔ In x refs
  pub ordered :
      (refs : List ClusterRef)
      → AllPairs (λ a b. str_lt b.name a.name ≡ false) (tools.sort_by_name refs)
  pub distinct :
      (refs : List ClusterRef)
      → AllPairs NamesDiffer refs
      → AllPairs NamesDiffer (tools.sort_by_name refs)

-- The digest tells these two lists of refs apart.
abbrev pub HasNoCollision : Tools → List ClusterRef → List ClusterRef → Type 0
HasNoCollision tools a b = tools.digest a ≡ tools.digest b → a ≡ b

abbrev SameRefs : List ClusterRef → List ClusterRef → Type 0
SameRefs xs ys = (x : ClusterRef) → In x xs ↔ In x ys

abbrev Before : ClusterRef → ClusterRef → Type 0
Before a b = str_lt a.name b.name ≡ true

AllPairs-both :
    (xs : List ClusterRef)
    → AllPairs (λ a b. str_lt b.name a.name ≡ false) xs
    → AllPairs NamesDiffer xs
    → AllPairs Before xs
AllPairs-both [] o d = tt
AllPairs-both (x ∷ xs) o d =
    (λ y i. str_lt_total x.name y.name (o.0 y i) (d.0 y i), AllPairs-both xs o.1 d.1)

module _ (tools : Tools) (sorts : IsSort tools) where
  sorted-Before :
      (refs : List ClusterRef)
      → AllPairs NamesDiffer refs
      → AllPairs Before (tools.sort_by_name refs)
  sorted-Before refs d =
      AllPairs-both (tools.sort_by_name refs) (sorts.ordered refs) (sorts.distinct refs d)

  sort-SameRefs :
      (xs ys : List ClusterRef)
      → AllPairs NamesDiffer xs
      → AllPairs NamesDiffer ys
      → (tools.sort_by_name xs ≡ tools.sort_by_name ys) ↔ SameRefs xs ys
  sort-SameRefs xs ys d e = (
    λ same x. (
      λ i. (sorts.members ys x).0 (subst (In x) same ((sorts.members xs x).1 i)),
      λ i. (sorts.members xs x).0 (subst (In x) (sym same) ((sorts.members ys x).1 i)),
    ),
    λ same.
        sorted_unique Before (λ a b p q. cc (str_lt_asym a.name b.name p, q))
          (tools.sort_by_name xs) (tools.sort_by_name ys) (sorted-Before xs d) (sorted-Before ys e)
          (λ x. (
            λ i. (sorts.members ys x).1 ((same x).0 ((sorts.members xs x).0 i)),
            λ i. (sorts.members xs x).1 ((same x).1 ((sorts.members ys x).0 i)),
          )),
  )

  -- The watcher cancels exactly when the collected refs changed.
  cancels_iff :
      (w : ChangeWatcher) (secrets secrets' : SecretVersions) (meshes meshes' : List ClusterMesh)
      → HasNoCollision tools
          (collect_refs tools secrets' meshes')
          (collect_refs tools secrets meshes)
      → AllPairs NamesDiffer (unsorted_refs secrets meshes)
      → AllPairs NamesDiffer (unsorted_refs secrets' meshes')
      → w.can_cancel ≡ true
      → compute_fingerprint tools secrets (some meshes) ≡ some w.start_fingerprint
      → (((watch tools secrets' w (some meshes')).cancelled ≡ true)
          ↔ (SameRefs (unsorted_refs secrets' meshes') (unsorted_refs secrets meshes) → ⊥))
        × ((watch tools secrets' w (some meshes')).failed ≡ false)
  unfolding watch compute_fingerprint collect_refs
  cancels_iff w secrets secrets' meshes meshes' injective d d' able start =
      let (to, from) =
        sort-SameRefs (unsorted_refs secrets' meshes') (unsorted_refs secrets meshes) d' d in
      let now = tools.digest (collect_refs tools secrets' meshes') in
      let (equal, hit) = str_eq_iff now w.start_fingerprint in
      let started : tools.digest (collect_refs tools secrets meshes) ≡ w.start_fingerprint =
        some-eq-some _ _ start in
      elim (Bool-cases (str_eq now w.start_fingerprint)) [
        | inl same ↦
            let unchanged = to (injective (equal same ∙ sym started)) in
            (rw (same, watch) ((λ h. cc), λ changed. absurd (changed unchanged)), refl)
        | inr miss ↦ (
          rw (miss, watch, able)
              (
                (λ h unchanged. cc (hit (ap tools.digest (from unchanged) ∙ started), miss)),
                λ changed. refl,
              ),
          refl,
        )
      ]

  -- The change watcher restarts the operator if and only if the clusters changed: where no two entries
  -- of all meshes have the same name, at the start and now, and the digest tells the sorted refs
  -- of then and now apart if they differ, a watcher that has `Cancel` and the fingerprint of the start
  -- calls it exactly when the clusters of all meshes, each with its name, the namespace and the name
  -- of its secret and the version of that secret, are not the same set as then, in whatever order the
  -- meshes are listed; and it does not fail.
  pub watch-cancels_iff :
      (w : ChangeWatcher) (secrets secrets' : SecretVersions) (meshes meshes' : List ClusterMesh)
      → HasNoCollision tools
          (collect_refs tools secrets' meshes')
          (collect_refs tools secrets meshes)
      → AllPairs EntryNamesDiffer (entries_of meshes)
      → AllPairs EntryNamesDiffer (entries_of meshes')
      → w.can_cancel ≡ true
      → compute_fingerprint tools secrets (some meshes) ≡ some w.start_fingerprint
      → (((watch tools secrets' w (some meshes')).cancelled ≡ true)
          ↔ (((x : ClusterRef) → IsRef secrets' meshes' x ↔ IsRef secrets meshes x) → ⊥))
        × ((watch tools secrets' w (some meshes')).failed ≡ false)
  watch-cancels_iff w secrets secrets' meshes meshes' injective d d' able start =
      let ((to, from), fine) =
        cancels_iff w secrets secrets' meshes meshes' injective
          (NamesDiffer-unsorted_refs secrets meshes d)
          (NamesDiffer-unsorted_refs secrets' meshes' d') able start in
      (
        (
          λ h same. to h (λ x.
              let (a, b) = unsorted_refs_iff secrets' meshes' x in
              let (a', b') = unsorted_refs_iff secrets meshes x in
              (λ i. b' ((same x).0 (a i)), λ i. b ((same x).1 (a' i)))),
          λ changed. from (λ same. changed (λ x.
              let (a, b) = unsorted_refs_iff secrets' meshes' x in
              let (a', b') = unsorted_refs_iff secrets meshes x in
              (λ v. a' ((same x).0 (b v)), λ v. a ((same x).1 (b' v))))),
        ),
        fine,
      )
