-- ===== src/Validation/Mesh.antt =====
-- internal/validation/mesh.go: the networks of a mesh, and of all meshes of a namespace, are
-- pairwise disjoint. A nil error is `none`; an error keeps the values that its message shows.
pub mod Parsed
pub mod Disjoint
pub mod CrossMesh
use kilo_clustermesh_operato.Base.{
  Bool, true, false, ◌&&◌, not, Option, none, some, List, [], ◌∷◌, ◌++◌, if◌then◌else◌, Text,
  str_eq,
}
use kilo_clustermesh_operato.Base.Result.{Result, ok, err, ◌>>=◌, or_fail, wrap}
use kilo_clustermesh_operato.Api.{ClusterEntry, ClusterMesh, all_cidrs}
use kilo_clustermesh_operato.Go.Net.Address.{IpNet}
use kilo_clustermesh_operato.Netutil.{parse_cidr, cidr_overlaps}
use kilo_clustermesh_operato.Kilonode.{is_empty}

-- `parsedCIDR`
pub record ParsedCidr : Type 0 where
  pub cluster : Text
  pub raw : Text
  pub net : IpNet

pub data MeshError : Type 0 where
  invalid_cidr : Text → Text → MeshError
  overlap : ParsedCidr → ParsedCidr → MeshError
  cross_overlap : Text → ParsedCidr → Text → ParsedCidr → MeshError
  in_mesh : Text → MeshError → MeshError

-- The inner loop of `parseClusters`.
unfoldable pub parse_networks : Text → List Text → Result MeshError (List ParsedCidr)
parse_networks cluster [] = ok []
parse_networks cluster (raw ∷ raws) = do
  net ← or_fail (parse_cidr raw) (invalid_cidr cluster raw)
  rest ← parse_networks cluster raws
  ok (record { cluster = cluster; raw = raw; net = net } ∷ rest)

-- `parseClusters`
unfoldable pub parse_clusters : List ClusterEntry → Result MeshError (List ParsedCidr)
unfolding parse_networks
parse_clusters [] = ok []
parse_clusters (c ∷ cs) = do
  here ← parse_networks c.name (all_cidrs c)
  rest ← parse_clusters cs
  ok (here ++ rest)

-- `meshA != "" && meshA != meshB`
abbrev pub is_cross_mesh : Text → Text → Bool
is_cross_mesh mesh_a mesh_b = not (is_empty mesh_a) && not (str_eq mesh_a mesh_b)

-- The two `continue`s of `checkOverlaps`, negated.
unfoldable pub conflicts : Bool → ParsedCidr → ParsedCidr → Bool
conflicts cross a b =
    if cross && str_eq a.cluster b.cluster then false else cidr_overlaps a.net b.net

-- The error of `checkOverlaps`.
unfoldable pub overlap_error : Text → Text → ParsedCidr → ParsedCidr → MeshError
overlap_error mesh_a mesh_b a b =
    if is_cross_mesh mesh_a mesh_b then cross_overlap mesh_a a mesh_b b else overlap a b

-- The inner loop of `checkOverlaps`.
unfoldable pub check_against : Text → Text → ParsedCidr → List ParsedCidr → Option MeshError
check_against mesh_a mesh_b a [] = none
check_against mesh_a mesh_b a (b ∷ bs) =
    if conflicts (is_cross_mesh mesh_a mesh_b) a b
    then some (overlap_error mesh_a mesh_b a b)
    else check_against mesh_a mesh_b a bs

-- The first error of two checks.
infixr 20 ◌then_check◌
abbrev pub ◌then_check◌ : Option MeshError → Option MeshError → Option MeshError
some e then_check o = some e
none then_check o = o

-- `checkOverlaps`
unfoldable pub check_overlaps : Text → Text → List ParsedCidr → Option MeshError
check_overlaps mesh_a mesh_b [] = none
check_overlaps mesh_a mesh_b (a ∷ rest) =
    check_against mesh_a mesh_b a rest then_check check_overlaps mesh_a mesh_b rest

-- `ValidateClusterNetworks`
unfoldable pub validate_cluster_networks : List ClusterEntry → Option MeshError
validate_cluster_networks clusters = elim (parse_clusters clusters) [
  | err e ↦ some e
  | ok cidrs ↦ check_overlaps [] [] cidrs
]

-- The first loop of `ValidateMeshNetworks`.
unfoldable pub validate_each : List ClusterMesh → Option MeshError
validate_each [] = none
validate_each (m ∷ ms) = elim (validate_cluster_networks m.spec.clusters) [
  | some e ↦ some (in_mesh m.name e)
  | none ↦ validate_each ms
]

-- The second loop: a mesh's name with its networks.
unfoldable pub parse_meshes : List ClusterMesh → Result MeshError (List (Text × List ParsedCidr))
parse_meshes [] = ok []
parse_meshes (m ∷ ms) = do
  cidrs ← wrap (in_mesh m.name) (parse_clusters m.spec.clusters)
  rest ← parse_meshes ms
  ok ((m.name, cidrs) ∷ rest)

-- The third loop, one mesh against the later ones.
unfoldable pub check_mesh_against :
    Text → List ParsedCidr → List (Text × List ParsedCidr) → Option MeshError
check_mesh_against name cidrs [] = none
check_mesh_against name cidrs ((name', cidrs') ∷ rest) =
    check_overlaps name name' (cidrs ++ cidrs') then_check check_mesh_against name cidrs rest

-- The third loop of `ValidateMeshNetworks`: every pair of distinct meshes.
unfoldable pub check_mesh_pairs : List (Text × List ParsedCidr) → Option MeshError
check_mesh_pairs [] = none
check_mesh_pairs ((name, cidrs) ∷ rest) =
    check_mesh_against name cidrs rest then_check check_mesh_pairs rest

-- `ValidateMeshNetworks`
unfoldable pub validate_mesh_networks : List ClusterMesh → Option MeshError
validate_mesh_networks meshes = elim (validate_each meshes) [
  | some e ↦ some e
  | none ↦ elim (parse_meshes meshes) [ err e ↦ some e | ok per_mesh ↦ check_mesh_pairs per_mesh ]
]
