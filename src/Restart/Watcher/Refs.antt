-- ===== src/Restart/Watcher/Refs.antt =====
-- The refs that `collectRefs` of internal/restart/watcher.go makes of the clusters of the meshes.
use kilo_clustermesh_operato.Base.{
  ◌≡◌, ◌≢◌, ◌↔◌, refl, sym, ap, subst, ◌∙◌, inl, inr, ◌⊎◌, Option, none, some, List, [], ◌∷◌, ◌++◌,
  Text, some-eq-some, In, In-append, In-append_left, In-append_right, AllPairs, Option-cases,
}
use kilo_clustermesh_operato.Api.{ClusterMesh, ClusterEntry, SecretKeyRef}
use kilo_clustermesh_operato.Restart.Watcher.{
  ClusterRef, SecretVersions, secret_resource_version, ref_of, mesh_refs, unsorted_refs,
}

abbrev pub NamesDiffer : ClusterRef → ClusterRef → Type 0
NamesDiffer a b = a.name ≢ b.name

abbrev pub EntryNamesDiffer : ClusterEntry → ClusterEntry → Type 0
EntryNamesDiffer a b = a.name ≢ b.name

-- The clusters of all meshes.
abbrev pub entries_of : List ClusterMesh → List ClusterEntry
entries_of [] = []
entries_of (m ∷ ms) = m.spec.clusters ++ entries_of ms

-- The version of a secret, empty if it cannot be read.
abbrev pub IsVersion : Option Text → Text → Type 0
IsVersion none v = v ≡ []
IsVersion (some u) v = v ≡ u

-- The cluster's name, with the namespace, the name and the version of its secret if it refers to one.
abbrev pub IsRefOf : SecretVersions → Text → ClusterEntry → ClusterRef → Type 0
IsRefOf secrets namespace c x =
    ((c.kubeconfig_secret_ref ≡ none)
      × (x ≡ record { name = c.name; secret_namespace = []; secret_name = []; secret_rv = [] }))
    ⊎ ((ref : SecretKeyRef) × (version : Text) × (c.kubeconfig_secret_ref ≡ some ref)
        × IsVersion (secrets namespace ref.name) version
        × (x ≡ record {
          name = c.name;
          secret_namespace = namespace;
          secret_name = ref.name;
          secret_rv = version;
        }))

-- The ref of a cluster of one of the meshes.
abbrev pub IsRef : SecretVersions → List ClusterMesh → ClusterRef → Type 0
IsRef secrets meshes x =
    (m : ClusterMesh) × In m meshes
    × ((c : ClusterEntry) × In c m.spec.clusters × IsRefOf secrets m.namespace c x)

secret_resource_version-IsVersion :
    (secrets : SecretVersions) (namespace name v : Text)
    → (v ≡ secret_resource_version secrets namespace name) ↔ IsVersion (secrets namespace name) v
unfolding secret_resource_version
secret_resource_version-IsVersion secrets namespace name v =
    elim (Option-cases (secrets namespace name)) [
      | inl missing ↦ rw (missing, secret_resource_version) (λ e. e, λ e. e)
      | inr (u, there) ↦ rw (there, secret_resource_version) (λ e. e, λ e. e)
    ]

ref_of_iff :
    (secrets : SecretVersions) (namespace : Text) (c : ClusterEntry) (x : ClusterRef)
    → (x ≡ ref_of secrets namespace c) ↔ IsRefOf secrets namespace c x
unfolding ref_of
ref_of_iff secrets namespace c x = elim (Option-cases c.kubeconfig_secret_ref) [
  | inl none_ ↦
      rw (none_, ref_of)
        (λ e. inl (refl, e), λ v. elim v [ inl (_, e) ↦ e | inr (ref, version, h, i, e) ↦ cc ])
  | inr (ref, there) ↦
      let (to, from) =
        secret_resource_version-IsVersion secrets namespace ref.name
          (secret_resource_version secrets namespace ref.name) in
      rw (there, ref_of)
        (
          λ e. inr (ref, _, refl, to refl, e),
          λ v. elim v [
            | inl (h, e) ↦ cc
            | inr (ref', version, h, i, e) ↦
                let same = some-eq-some ref ref' h in
                let version_same =
                  (secret_resource_version-IsVersion secrets namespace ref.name version).1
                    (subst (λ r. IsVersion (secrets namespace r.name) version) (sym same) i) in
                e
                ∙ ap
                    (λ r. record {
                      name = c.name;
                      secret_namespace = namespace;
                      secret_name = r.name;
                      secret_rv = version;
                    })
                    (sym same)
                ∙ ap
                    (λ v. record {
                      name = c.name;
                      secret_namespace = namespace;
                      secret_name = ref.name;
                      secret_rv = v;
                    })
                    version_same
          ],
        )
]

mesh_refs_iff :
    (secrets : SecretVersions) (namespace : Text) (cs : List ClusterEntry) (x : ClusterRef)
    → In x (mesh_refs secrets namespace cs)
      ↔ ((c : ClusterEntry) × In c cs × IsRefOf secrets namespace c x)
unfolding mesh_refs
mesh_refs_iff secrets namespace [] x = (λ i. absurd i, λ (c, i, r). absurd i)
mesh_refs_iff secrets namespace (d ∷ ds) x =
    let (to, from) = mesh_refs_iff secrets namespace ds x in
    (
      λ i. elim i [
        | inl e ↦ (d, inl refl, (ref_of_iff secrets namespace d x).0 e)
        | inr j ↦ let (c, k, r) = to j in (c, inr k, r)
      ],
      λ (c, i, r). elim i [
        | inl e ↦
            inl (
              (ref_of_iff secrets namespace d x).1 (subst (λ y. IsRefOf secrets namespace y x) e r))
        | inr j ↦ inr (from (c, j, r))
      ],
    )

-- The refs of the loops are the refs of the clusters.
pub unsorted_refs_iff :
    (secrets : SecretVersions) (meshes : List ClusterMesh) (x : ClusterRef)
    → In x (unsorted_refs secrets meshes) ↔ IsRef secrets meshes x
unfolding unsorted_refs
unsorted_refs_iff secrets [] x = (λ i. absurd i, λ (m, i, r). absurd i)
unsorted_refs_iff secrets (m ∷ ms) x =
    let here = mesh_refs secrets m.namespace m.spec.clusters in
    let (to, from) = unsorted_refs_iff secrets ms x in
    let (first, listed) = mesh_refs_iff secrets m.namespace m.spec.clusters x in
    (
      λ i. elim (In-append x here (unsorted_refs secrets ms) i) [
        | inl j ↦ (m, inl refl, first j)
        | inr j ↦ let (n, k, r) = to j in (n, inr k, r)
      ],
      λ (n, i, r). elim i [
        | inl e ↦ In-append_left x here (unsorted_refs secrets ms) (
            listed (
              subst
                (λ y. (c : ClusterEntry) × In c y.spec.clusters × IsRefOf secrets y.namespace c x) e
                r))
        | inr j ↦ In-append_right x here (unsorted_refs secrets ms) (from (n, j, r))
      ],
    )

module _ {A : Type 0} (f : A → Text) where
  abbrev texts : List A → List Text
  texts [] = []
  texts (x ∷ xs) = f x ∷ texts xs

  texts-append : (xs ys : List A) → texts (xs ++ ys) ≡ texts xs ++ texts ys
  texts-append [] ys = refl
  texts-append (x ∷ xs) ys = ap (λ ts. f x ∷ ts) (texts-append xs ys)

  In-texts : (x : A) (xs : List A) → In x xs → In (f x) (texts xs)
  In-texts x [] i = absurd i
  In-texts x (y ∷ ys) (inl e) = inl (ap f e)
  In-texts x (y ∷ ys) (inr j) = inr (In-texts x ys j)

  texts-In : (t : Text) (xs : List A) → In t (texts xs) → (x : A) × In x xs × (t ≡ f x)
  texts-In t [] i = absurd i
  texts-In t (y ∷ ys) (inl e) = (y, inl refl, e)
  texts-In t (y ∷ ys) (inr j) = let (x, k, e) = texts-In t ys j in (x, inr k, e)

  distinct_texts_iff :
      (xs : List A) → AllPairs (λ a b. f a ≢ f b) xs ↔ AllPairs (λ s t. s ≢ t) (texts xs)
  distinct_texts_iff [] = (λ p. tt, λ p. tt)
  distinct_texts_iff (x ∷ xs) =
      let (to, from) = distinct_texts_iff xs in
      (
        λ (first, rest).
            ((λ t i same. let (y, j, e) = texts-In t xs i in first y j (same ∙ e)), to rest),
        λ (first, rest). ((λ y i. first (f y) (In-texts y xs i)), from rest),
      )

ref_of-name :
    (secrets : SecretVersions) (namespace : Text) (c : ClusterEntry)
    → (ref_of secrets namespace c).name ≡ c.name
unfolding ref_of
ref_of-name secrets namespace c = elim (Option-cases c.kubeconfig_secret_ref) [
  | inl h ↦ rw (h, ref_of) refl
  | inr (ref, h) ↦ rw (h, ref_of) refl
]

mesh_refs-names :
    (secrets : SecretVersions) (namespace : Text) (cs : List ClusterEntry)
    → texts (λ x. x.name) (mesh_refs secrets namespace cs) ≡ texts (λ c. c.name) cs
unfolding mesh_refs
mesh_refs-names secrets namespace [] = refl
mesh_refs-names secrets namespace (c ∷ cs) =
    ap (λ t. t ∷ texts (λ x. x.name) (mesh_refs secrets namespace cs))
      (ref_of-name secrets namespace c)
    ∙ ap (λ ts. c.name ∷ ts) (mesh_refs-names secrets namespace cs)

unsorted_refs-names :
    (secrets : SecretVersions) (meshes : List ClusterMesh)
    → texts (λ x. x.name) (unsorted_refs secrets meshes) ≡ texts (λ c. c.name) (entries_of meshes)
unfolding unsorted_refs
unsorted_refs-names secrets [] = refl
unsorted_refs-names secrets (m ∷ ms) =
    let here = mesh_refs secrets m.namespace m.spec.clusters in
    texts-append (λ x. x.name) here (unsorted_refs secrets ms)
    ∙ ap (λ ts. ts ++ texts (λ x. x.name) (unsorted_refs secrets ms))
        (mesh_refs-names secrets m.namespace m.spec.clusters)
    ∙ ap (λ ts. texts (λ c. c.name) m.spec.clusters ++ ts) (unsorted_refs-names secrets ms)
    ∙ sym (texts-append (λ c. c.name) m.spec.clusters (entries_of ms))

-- The refs of clusters with distinct names have distinct names.
pub NamesDiffer-unsorted_refs :
    (secrets : SecretVersions) (meshes : List ClusterMesh)
    → AllPairs EntryNamesDiffer (entries_of meshes)
    → AllPairs NamesDiffer (unsorted_refs secrets meshes)
NamesDiffer-unsorted_refs secrets meshes distinct =
    (distinct_texts_iff (λ x. x.name) (unsorted_refs secrets meshes)).1 (
      subst (AllPairs (λ s t. s ≢ t)) (sym (unsorted_refs-names secrets meshes))
        ((distinct_texts_iff (λ c. c.name) (entries_of meshes)).0 distinct))
