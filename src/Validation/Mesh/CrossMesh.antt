-- ===== src/Validation/Mesh/CrossMesh.antt =====
-- `ValidateMeshNetworks` of internal/validation/mesh.go against addresses.
use kilo_clustermesh_operato.Base.{
  ◌≡◌, ◌≢◌, sym, subst, inl, inr, Bool, false, none, some, List, [], ◌∷◌, ◌++◌, Text, str_eq_iff,
  arith, Option-cases, In, In-append_left, In-append_right, AllPairs, AllPairs-append, All,
}
use kilo_clustermesh_operato.Base.Result.{ok, Result-cases, ok-eq-ok}
use kilo_clustermesh_operato.Api.{ClusterEntry, ClusterMesh, all_cidrs}
use kilo_clustermesh_operato.Go.Net.Address.{IpNet}
use kilo_clustermesh_operato.Netutil.{parse_cidr, cidr_overlaps}
use kilo_clustermesh_operato.Validation.Mesh.{
  ParsedCidr, parse_networks, parse_clusters, is_cross_mesh, conflicts, check_overlaps,
  validate_cluster_networks, validate_each, parse_meshes, check_mesh_against, check_mesh_pairs,
  validate_mesh_networks,
}
use kilo_clustermesh_operato.Validation.Mesh.Disjoint.{
  IsDisjoint, parsed-IsNet, overlaps-IsDisjoint, then_check-eq-none, check_overlaps_iff, Passes,
}

-- A network of an entry, as `parseClusters` records it.
abbrev entry_cidr : Text → Text → IpNet → ParsedCidr
entry_cidr cluster raw net = record { cluster = cluster; raw = raw; net = net }

parse_networks-In :
    (cluster : Text) (raws : List Text) (cidrs : List ParsedCidr) (raw : Text) (net : IpNet)
    → parse_networks cluster raws ≡ ok cidrs
    → In raw raws
    → parse_cidr raw ≡ some net
    → In (entry_cidr cluster raw net) cidrs
unfolding parse_networks
parse_networks-In cluster [] cidrs raw net e m p = absurd m
parse_networks-In cluster (r ∷ raws) cidrs raw net e m p = elim (Option-cases (parse_cidr r)) [
  | inl h ↦ cc (rw (h, parse_networks) at e)
  | inr (n, h) ↦ elim (Result-cases (parse_networks cluster raws)) [
    | inr (x, k) ↦ cc (rw (h, k, parse_networks) at e)
    | inl (rest, k) ↦
        subst (In (entry_cidr cluster raw net)) (ok-eq-ok _ _ (rw (h, k, parse_networks) at e))
          (elim m [
            | inl same ↦ inl (ground arith)
            | inr later ↦ inr (parse_networks-In cluster raws rest raw net k later p)
          ])
  ]
]

parse_clusters-In :
    (clusters : List ClusterEntry) (cidrs : List ParsedCidr) (c : ClusterEntry) (raw : Text)
    (net : IpNet)
    → parse_clusters clusters ≡ ok cidrs
    → In c clusters
    → In raw c.allowed_networks
    → parse_cidr raw ≡ some net
    → In (entry_cidr c.name raw net) cidrs
unfolding parse_clusters all_cidrs
parse_clusters-In [] cidrs c raw net e mc m p = absurd mc
parse_clusters-In (d ∷ ds) cidrs c raw net e mc m p =
    elim (Result-cases (parse_networks d.name (all_cidrs d))) [
      | inr (x, h) ↦ cc (rw (h, parse_clusters) at e)
      | inl (here, h) ↦ elim (Result-cases (parse_clusters ds)) [
        | inr (x, k) ↦ cc (rw (h, k, parse_clusters) at e)
        | inl (rest, k) ↦
            subst (In (entry_cidr c.name raw net)) (ok-eq-ok _ _ (rw (h, k, parse_clusters) at e))
              (elim mc [
                | inl same ↦ In-append_left _ here rest (
                    rw same
                      (parse_networks-In d.name (all_cidrs d) here raw net h (rw same at m) p))
                | inr later ↦
                    In-append_right _ here rest (parse_clusters-In ds rest c raw net k later m p)
              ])
      ]
    ]

-- Networks of two entries with different names share no address.
abbrev pub AreSeparate : ClusterMesh → ClusterMesh → Type 0
AreSeparate m1 m2 =
    (c1 c2 : ClusterEntry) (raw1 raw2 : Text) (net1 net2 : IpNet)
    → In c1 m1.spec.clusters
    → In c2 m2.spec.clusters
    → c1.name ≢ c2.name
    → In raw1 c1.allowed_networks
    → In raw2 c2.allowed_networks
    → parse_cidr raw1 ≡ some net1
    → parse_cidr raw2 ≡ some net2
    → IsDisjoint net1 net2

-- Different names leave only the test of overlap.
Passes-cidr_overlaps :
    (cross : Bool) (a b : ParsedCidr)
    → a.cluster ≢ b.cluster
    → Passes cross a b
    → cidr_overlaps a.net b.net ≡ false
unfolding conflicts
Passes-cidr_overlaps cross a b ne h = ground (arith, str_eq_iff a.cluster b.cluster)

combined-AreSeparate :
    (m1 m2 : ClusterMesh) (cidrs1 cidrs2 : List ParsedCidr)
    → parse_clusters m1.spec.clusters ≡ ok cidrs1
    → parse_clusters m2.spec.clusters ≡ ok cidrs2
    → check_overlaps m1.name m2.name (cidrs1 ++ cidrs2) ≡ none
    → AreSeparate m1 m2
combined-AreSeparate m1 m2 cidrs1 cidrs2 p1 p2 e c1 c2 raw1 raw2 net1 net2 i1 i2 ne j1 j2 q1 q2 =
    let pairs = (check_overlaps_iff m1.name m2.name (cidrs1 ++ cidrs2)).0 e in
    let a = entry_cidr c1.name raw1 net1 in
    let b = entry_cidr c2.name raw2 net2 in
    let pass =
      AllPairs-append _ cidrs1 cidrs2 a b pairs
        (parse_clusters-In m1.spec.clusters cidrs1 c1 raw1 net1 p1 i1 j1 q1)
        (parse_clusters-In m2.spec.clusters cidrs2 c2 raw2 net2 p2 i2 j2 q2) in
    overlaps-IsDisjoint net1 net2 (parsed-IsNet raw1 net1 q1) (parsed-IsNet raw2 net2 q2)
      (Passes-cidr_overlaps (is_cross_mesh m1.name m2.name) a b ne pass)

check_mesh_against-In :
    (m : ClusterMesh) (cidrs : List ParsedCidr) (ms : List ClusterMesh)
    (per_mesh : List (Text × List ParsedCidr))
    → parse_clusters m.spec.clusters ≡ ok cidrs
    → parse_meshes ms ≡ ok per_mesh
    → check_mesh_against m.name cidrs per_mesh ≡ none
    → (m' : ClusterMesh) → In m' ms
    → AreSeparate m m'
unfolding parse_meshes check_mesh_against
check_mesh_against-In m cidrs [] per_mesh p q e m' i = absurd i
check_mesh_against-In m cidrs (n ∷ ns) per_mesh p q e m' i =
    elim (Result-cases (parse_clusters n.spec.clusters)) [
      | inr (x, h) ↦ cc (rw (h, parse_meshes) at q)
      | inl (here, h) ↦ elim (Result-cases (parse_meshes ns)) [
        | inr (x, k) ↦ cc (rw (h, k, parse_meshes) at q)
        | inl (rest, k) ↦
            let same = ok-eq-ok _ _ (rw (h, k, parse_meshes) at q) in
            let e' = subst (λ l. check_mesh_against m.name cidrs l ≡ none) (sym same) e in
            let (e1, e2) = then_check-eq-none (check_overlaps m.name n.name (cidrs ++ here)) _ e' in
            elim i [
              | inl eq ↦ rw eq (combined-AreSeparate m n cidrs here p h e1)
              | inr later ↦ check_mesh_against-In m cidrs ns rest p k e2 m' later
            ]
      ]
    ]

check_mesh_pairs-AllPairs :
    (ms : List ClusterMesh) (per_mesh : List (Text × List ParsedCidr))
    → parse_meshes ms ≡ ok per_mesh
    → check_mesh_pairs per_mesh ≡ none
    → AllPairs AreSeparate ms
unfolding parse_meshes check_mesh_pairs
check_mesh_pairs-AllPairs [] per_mesh q e = tt
check_mesh_pairs-AllPairs (n ∷ ns) per_mesh q e =
    elim (Result-cases (parse_clusters n.spec.clusters)) [
      | inr (x, h) ↦ cc (rw (h, parse_meshes) at q)
      | inl (here, h) ↦ elim (Result-cases (parse_meshes ns)) [
        | inr (x, k) ↦ cc (rw (h, k, parse_meshes) at q)
        | inl (rest, k) ↦
            let same = ok-eq-ok _ _ (rw (h, k, parse_meshes) at q) in
            let e' = subst (λ l. check_mesh_pairs l ≡ none) (sym same) e in
            let (e1, e2) = then_check-eq-none (check_mesh_against n.name here rest) _ e' in
            (check_mesh_against-In n here ns rest h k e1, check_mesh_pairs-AllPairs ns rest k e2)
      ]
    ]

validate_each-All :
    (ms : List ClusterMesh)
    → validate_each ms ≡ none
    → All (λ m. validate_cluster_networks m.spec.clusters ≡ none) ms
unfolding validate_each
validate_each-All [] e = tt
validate_each-All (m ∷ ms) e = elim (Option-cases (validate_cluster_networks m.spec.clusters)) [
  | inr (x, h) ↦ cc (rw (h, validate_each) at e)
  | inl h ↦ (h, validate_each-All ms (rw (h, validate_each) at e))
]

-- If `ValidateMeshNetworks` accepts the meshes of a namespace, each of them is accepted by
-- `ValidateClusterNetworks`, and the networks of two clusters with different names, of any two of
-- the meshes, share no address.
pub validate_mesh_networks_sound :
    (meshes : List ClusterMesh)
    → validate_mesh_networks meshes ≡ none
    → All (λ m. validate_cluster_networks m.spec.clusters ≡ none) meshes
      × AllPairs AreSeparate meshes
unfolding validate_mesh_networks
validate_mesh_networks_sound meshes e = elim (Option-cases (validate_each meshes)) [
  | inr (x, h) ↦ cc (rw (h, validate_mesh_networks) at e)
  | inl h ↦ elim (Result-cases (parse_meshes meshes)) [
    | inr (x, k) ↦ cc (rw (h, k, validate_mesh_networks) at e)
    | inl (per_mesh, k) ↦ (
      validate_each-All meshes h,
      check_mesh_pairs-AllPairs meshes per_mesh k (rw (h, k, validate_mesh_networks) at e),
    )
  ]
]
