-- ===== src/Restart/Watcher/Secrets.antt =====
-- `secretToClusterMesh` of internal/restart/watcher.go.
use kilo_clustermesh_operato.Base.{
  ◌≡◌, ◌↔◌, refl, ap, subst, ◌∙◌, inl, inr, true, some, List, [], ◌∷◌, Text, In, In-append,
  In-append_left, In-append_right, str_eq_iff, Bool-cases, Option-cases,
}
use kilo_clustermesh_operato.Api.{ClusterMesh, ClusterEntry, SecretKeyRef}
use kilo_clustermesh_operato.Controller.Requests.{Request}
use kilo_clustermesh_operato.Restart.Watcher.{
  refers_to, entry_requests, secret_requests, secret_to_cluster_mesh,
}

-- The entry's kubeconfig is in the secret of that name.
abbrev pub RefersTo : Text → ClusterEntry → Type 0
RefersTo secret_name c =
    (ref : SecretKeyRef) × (c.kubeconfig_secret_ref ≡ some ref) × (ref.name ≡ secret_name)

refers_to_iff : (n : Text) (c : ClusterEntry) → (refers_to n c ≡ true) ↔ RefersTo n c
unfolding refers_to
refers_to_iff n c = elim (Option-cases c.kubeconfig_secret_ref) [
  | inl bare ↦ (λ h. cc (rw (bare, refers_to) at h), λ (ref, e, same). cc)
  | inr (ref, e) ↦ (
    λ h. (ref, e, (str_eq_iff ref.name n).0 (rw (e, refers_to) at h)),
    λ (ref', e', same). rw (e', refers_to) ((str_eq_iff ref'.name n).1 same),
  )
]

entry_requests_iff :
    (n : Text) (q r : Request) (cs : List ClusterEntry)
    → In r (entry_requests n q cs) ↔ ((r ≡ q) × ((c : ClusterEntry) × In c cs × RefersTo n c))
unfolding entry_requests
entry_requests_iff n q r [] = (λ i. absurd i, λ (same, (c, i, refers)). absurd i)
entry_requests_iff n q r (x ∷ xs) =
    let (to, from) = entry_requests_iff n q r xs in
    let (found, present) = refers_to_iff n x in
    elim (Bool-cases (refers_to n x)) [
      | inl hit ↦ rw hit (
        λ i. elim i [
          | inl same ↦ (same, (x, inl refl, found hit))
          | inr j ↦ let (same, (c, k, refers)) = to j in (same, (c, inr k, refers))
        ],
        λ (same, v). inl same,
      )
      | inr miss ↦ rw miss (
        λ i. let (same, (c, k, refers)) = to i in (same, (c, inr k, refers)),
        λ (same, (c, k, refers)). elim k [
          | inl first ↦ cc (present (subst (RefersTo n) first refers), miss)
          | inr j ↦ from (same, (c, j, refers))
        ],
      )
    ]

-- An event of a secret enqueues exactly the meshes, of those that the list call of its namespace
-- returned, with an entry whose kubeconfig is in a secret of that name.
pub secret_to_cluster_mesh_iff :
    (secret_name : Text) (meshes : List ClusterMesh) (r : Request)
    → In r (secret_to_cluster_mesh secret_name (some meshes)) ↔ (
        (m : ClusterMesh) × In m meshes
        × (r ≡ record { namespace = m.namespace; name = m.name })
        × ((c : ClusterEntry) × In c m.spec.clusters × RefersTo secret_name c))
unfolding secret_to_cluster_mesh secret_requests
secret_to_cluster_mesh_iff n [] r = (λ i. absurd i, λ v. absurd v.1)
secret_to_cluster_mesh_iff n (m ∷ ms) r =
    let q : Request = record { namespace = m.namespace; name = m.name } in
    let (to, from) = entry_requests_iff n q r m.spec.clusters in
    let (to', from') = secret_to_cluster_mesh_iff n ms r in
    (
      λ i. elim (In-append r (entry_requests n q m.spec.clusters) (secret_requests n ms) i) [
        | inl j ↦ let (same, refers) = to j in (m, inl refl, same, refers)
        | inr j ↦ let (x, k, same, refers) = to' j in (x, inr k, same, refers)
      ],
      λ (x, k, same, (c, j, refers)). elim k [
        | inl first ↦ In-append_left r (entry_requests n q m.spec.clusters) (secret_requests n ms) (
            from (
              same ∙ ap (λ y. record { namespace = y.namespace; name = y.name }) first,
              (c, subst (λ y. In c y.spec.clusters) first j, refers),
            ))
        | inr l ↦
            In-append_right r (entry_requests n q m.spec.clusters) (secret_requests n ms)
              (from' (x, l, same, (c, j, refers)))
      ],
    )
