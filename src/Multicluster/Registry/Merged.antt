-- ===== src/Multicluster/Registry/Merged.antt =====
-- `mergeClusterEntries` of cmd/main.go against a search through the meshes.
use kilo_clustermesh_operato.Base.{
  ◌≡◌, ◌≢◌, refl, sym, ◌∙◌, ap, subst, inl, inr, true, false, Option, none, some, List, [], ◌∷◌,
  ◌++◌, if◌then◌else◌, Text, str_eq, str_eq_iff, any, any-str_eq_iff, In, AllPairs, arith,
  Bool-cases,
}
use kilo_clustermesh_operato.Api.{ClusterMesh, ClusterEntry}
use kilo_clustermesh_operato.Multicluster.Registry.{
  EntrySource, all_entries, tagged, merge_from, merge_cluster_entries,
}

-- The first entry of a name.
abbrev pub first_named : Text → List EntrySource → Option EntrySource
first_named n [] = none
first_named n (s ∷ ss) = if str_eq s.entry.name n then some s else first_named n ss

abbrev pub NameDiffers : EntrySource → EntrySource → Type 0
NameDiffers a b = a.entry.name ≢ b.entry.name

-- `merged` has what the list `all` has under the names not seen.
abbrev Merges : List Text → List EntrySource → List EntrySource → Type 0
Merges seen all merged =
    ((n : Text) → first_named n merged ≡ (if any (str_eq n) seen then none else first_named n all))
    × ((s : EntrySource) → In s merged → any (str_eq s.entry.name) seen ≡ false)
    × AllPairs NameDiffers merged

merge_from-Merges :
    (seen : List Text) (all : List EntrySource) → Merges seen all (merge_from seen all)
unfolding merge_from
merge_from-Merges seen [] = ((λ n. ground arith), (λ s i. absurd i), tt)
merge_from-Merges seen (e ∷ es) = elim (Bool-cases (any (str_eq e.entry.name) seen)) [
  | inl old ↦
      let (finds, fresh, distinct) = merge_from-Merges seen es in
      rw old (
        (λ n. elim (Bool-cases (str_eq e.entry.name n)) [
          | inl hit ↦
              let gone =
                subst (λ x. any (str_eq x) seen ≡ true) ((str_eq_iff e.entry.name n).0 hit) old in
              finds n ∙ rw (hit, gone) refl
          | inr miss ↦ finds n ∙ rw miss refl
        ]),
        fresh,
        distinct,
      )
  | inr new ↦
      let (finds, fresh, distinct) = merge_from-Merges (e.entry.name ∷ seen) es in
      rw new (
        (λ n. elim (Bool-cases (str_eq e.entry.name n)) [
          | inl hit ↦
              let still =
                subst (λ x. any (str_eq x) seen ≡ false) ((str_eq_iff e.entry.name n).0 hit) new in
              rw (hit, still) refl
          | inr miss ↦
              let other : str_eq n e.entry.name ≡ false =
                ground (arith, str_eq_iff n e.entry.name, str_eq_iff e.entry.name n) in
              rw miss (finds n ∙ rw other refl)
        ]),
        (λ s i. elim i [
          | inl same ↦ ap (λ x. any (str_eq x.entry.name) seen) same ∙ new
          | inr j ↦ ground (arith, fresh s j)
        ]),
        (
          (λ s i same.
              cc (
                fresh s i,
                (any-str_eq_iff s.entry.name (e.entry.name ∷ seen)).1 (inl (sym same)),
              )),
          distinct,
        ),
      )
]

-- The first entry of a name in a mesh, with the namespace of the mesh.
abbrev pub first_in_mesh : Text → Text → List ClusterEntry → Option EntrySource
first_in_mesh n namespace [] = none
first_in_mesh n namespace (c ∷ cs) =
    if str_eq c.name n
    then some (record { entry = c; mesh_namespace = namespace })
    else first_in_mesh n namespace cs

abbrev or_later : Option EntrySource → Option EntrySource → Option EntrySource
or_later none o = o
or_later (some s) o = some s

-- The entry of a name in the first mesh that has one.
abbrev pub first_entry : Text → List ClusterMesh → Option EntrySource
first_entry n [] = none
first_entry n (m ∷ ms) = or_later (first_in_mesh n m.namespace m.spec.clusters) (first_entry n ms)

first_named-append :
    (n : Text) (xs ys : List EntrySource)
    → first_named n (xs ++ ys) ≡ or_later (first_named n xs) (first_named n ys)
first_named-append n [] ys = refl
first_named-append n (x ∷ xs) ys = elim (Bool-cases (str_eq x.entry.name n)) [
  | inl hit ↦ rw hit refl
  | inr miss ↦ rw miss (first_named-append n xs ys)
]

first_named-tagged :
    (n namespace : Text) (cs : List ClusterEntry)
    → first_named n (tagged namespace cs) ≡ first_in_mesh n namespace cs
unfolding tagged
first_named-tagged n namespace [] = refl
first_named-tagged n namespace (c ∷ cs) =
    ap (λ o. if str_eq c.name n then some (record { entry = c; mesh_namespace = namespace }) else o)
      (first_named-tagged n namespace cs)

first_named-all_entries :
    (n : Text) (meshes : List ClusterMesh)
    → first_named n (all_entries meshes) ≡ first_entry n meshes
unfolding all_entries
first_named-all_entries n [] = refl
first_named-all_entries n (m ∷ ms) =
    first_named-append n (tagged m.namespace m.spec.clusters) (all_entries ms)
    ∙ ap (λ o. or_later o (first_named n (all_entries ms)))
        (first_named-tagged n m.namespace m.spec.clusters)
    ∙ ap (or_later (first_in_mesh n m.namespace m.spec.clusters)) (first_named-all_entries n ms)

-- `mergeClusterEntries` returns each cluster name once, and under each name the first entry that a
-- search through the meshes, and in each mesh through its clusters, finds, with the namespace of
-- that mesh.
pub merge_cluster_entries-first :
    (meshes : List ClusterMesh)
    → ((n : Text) → first_named n (merge_cluster_entries meshes) ≡ first_entry n meshes)
      × AllPairs NameDiffers (merge_cluster_entries meshes)
unfolding merge_cluster_entries
merge_cluster_entries-first meshes =
    let (finds, _, distinct) = merge_from-Merges [] (all_entries meshes) in
    ((λ n. finds n ∙ first_named-all_entries n meshes), distinct)
