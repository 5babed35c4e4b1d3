-- ===== src/Controller/Requests.antt =====
-- The requests of `nodeToClusterMeshRequests` of internal/controller/clustermesh_controller.go.
use kilo_clustermesh_operato.Base.{
  ◌≡◌, ◌↔◌, refl, sym, ap, subst, ◌∙◌, inl, inr, Bool, true, false, Option, none, some, List, [],
  ◌∷◌, if◌then◌else◌, Text, In, str_eq, str_eq_iff, Bool-cases,
}
use kilo_clustermesh_operato.Api.{ClusterMesh, ClusterEntry}

-- `reconcile.Request`: the namespaced name of a mesh.
pub record Request : Type 0 where
  pub namespace : Text
  pub name : Text

-- The inner loop, left at the first entry of that name.
unfoldable pub lists_cluster : Text → List ClusterEntry → Bool
lists_cluster cluster_name [] = false
lists_cluster cluster_name (entry ∷ entries) =
    if str_eq entry.name cluster_name then true else lists_cluster cluster_name entries

-- The outer loop.
unfoldable pub mesh_requests : Text → List ClusterMesh → List Request
unfolding lists_cluster
mesh_requests cluster_name [] = []
mesh_requests cluster_name (m ∷ ms) =
    let rest = mesh_requests cluster_name ms in
    if lists_cluster cluster_name m.spec.clusters
    then record { namespace = m.namespace; name = m.name } ∷ rest
    else rest

-- `nodeToClusterMeshRequests`, from what its list call returned.
unfoldable pub node_to_mesh_requests : Text → Option (List ClusterMesh) → List Request
unfolding mesh_requests
node_to_mesh_requests cluster_name none = []
node_to_mesh_requests cluster_name (some meshes) = mesh_requests cluster_name meshes

lists_cluster_iff :
    (cluster_name : Text) (entries : List ClusterEntry)
    → (lists_cluster cluster_name entries ≡ true)
      ↔ ((e : ClusterEntry) × In e entries × (e.name ≡ cluster_name))
unfolding lists_cluster
lists_cluster_iff cluster_name [] = (λ h. cc, λ (e, i, same). absurd i)
lists_cluster_iff cluster_name (x ∷ xs) =
    let (to, from) = lists_cluster_iff cluster_name xs in
    elim (Bool-cases (str_eq x.name cluster_name)) [
      | inl hit ↦ rw hit (λ h. (x, inl refl, (str_eq_iff x.name cluster_name).0 hit), λ v. refl)
      | inr miss ↦ rw miss (
        λ h. let (e, i, same) = to h in (e, inr i, same),
        λ (e, i, same). elim i [
          | inl first ↦
              cc ((str_eq_iff x.name cluster_name).1 (sym (ap (λ y. y.name) first) ∙ same), miss)
          | inr j ↦ from (e, j, same)
        ],
      )
    ]

-- A node event of a cluster enqueues exactly the meshes, of those that the list call returned, that
-- list the cluster.
pub node_to_mesh_requests_iff :
    (cluster_name : Text) (meshes : List ClusterMesh) (r : Request)
    → In r (node_to_mesh_requests cluster_name (some meshes)) ↔ (
        (m : ClusterMesh) × In m meshes
        × (r ≡ record { namespace = m.namespace; name = m.name })
        × ((e : ClusterEntry) × In e m.spec.clusters × (e.name ≡ cluster_name)))
unfolding node_to_mesh_requests mesh_requests
node_to_mesh_requests_iff cluster_name [] r = (λ i. absurd i, λ v. absurd v.1)
node_to_mesh_requests_iff cluster_name (m ∷ ms) r =
    let (to, from) = node_to_mesh_requests_iff cluster_name ms r in
    let (found, present) = lists_cluster_iff cluster_name m.spec.clusters in
    elim (Bool-cases (lists_cluster cluster_name m.spec.clusters)) [
      | inl hit ↦ rw hit (
        λ i. elim i [
          | inl same ↦ (m, inl refl, same, found hit)
          | inr j ↦ let v = to j in (v.0, inr v.1, v.2, v.3)
        ],
        λ v. elim v.1 [
          | inl first ↦
              inl (v.2 ∙ ap (λ x. record { namespace = x.namespace; name = x.name }) first)
          | inr j ↦ inr (from (v.0, j, v.2, v.3))
        ],
      )
      | inr miss ↦ rw miss (
        λ i. let v = to i in (v.0, inr v.1, v.2, v.3),
        λ v. elim v.1 [
          | inl first ↦
              cc (present (v.3.0, subst (λ x. In v.3.0 x.spec.clusters) first v.3.1, v.3.2), miss)
          | inr j ↦ from (v.0, j, v.2, v.3)
        ],
      )
    ]
