-- ===== src/Restart/Watcher.antt =====
-- internal/restart/watcher.go: the fingerprint of the clusters and their secrets. The secrets of the
-- local cluster, `sort.Slice` on the names, and the digest (JSON, SHA-256 and hexadecimal digits) are
-- parameters.
pub mod Secrets
pub mod Refs
pub mod Fingerprint
use kilo_clustermesh_operato.Base.{
  Bool, true, false, Option, none, some, List, [], ◌∷◌, ◌++◌, if◌then◌else◌, Text, str_eq,
}
use kilo_clustermesh_operato.Api.{ClusterMesh, ClusterEntry, SecretKeyRef}
use kilo_clustermesh_operato.Controller.Requests.{Request}

-- `clusterRef`
pub record ClusterRef : Type 0 where
  pub name : Text
  pub secret_namespace : Text
  pub secret_name : Text
  pub secret_rv : Text

-- `sort.Slice` with the comparison of `collectRefs`, and the digest.
pub record Tools : Type 0 where
  pub sort_by_name : List ClusterRef → List ClusterRef
  pub digest : List ClusterRef → Text

-- The resource version of the secret of a namespace and a name, `none` if the call fails.
abbrev pub SecretVersions : Type 0
SecretVersions = Text → Text → Option Text

-- `secretResourceVersion`
unfoldable pub secret_resource_version : SecretVersions → Text → Text → Text
secret_resource_version secrets namespace name = elim (secrets namespace name) [
  | none ↦ []
  | some version ↦ version
]

-- One round of the inner loop of `collectRefs`.
unfoldable pub ref_of : SecretVersions → Text → ClusterEntry → ClusterRef
unfolding secret_resource_version
ref_of secrets namespace c = elim c.kubeconfig_secret_ref [
  | none ↦ record { name = c.name; secret_namespace = []; secret_name = []; secret_rv = [] }
  | some ref ↦ record {
    name = c.name;
    secret_namespace = namespace;
    secret_name = ref.name;
    secret_rv = secret_resource_version secrets namespace ref.name;
  }
]

unfoldable pub mesh_refs : SecretVersions → Text → List ClusterEntry → List ClusterRef
unfolding ref_of
mesh_refs secrets namespace [] = []
mesh_refs secrets namespace (c ∷ cs) = ref_of secrets namespace c ∷ mesh_refs secrets namespace cs

-- The loops of `collectRefs`.
unfoldable pub unsorted_refs : SecretVersions → List ClusterMesh → List ClusterRef
unfolding mesh_refs
unsorted_refs secrets [] = []
unsorted_refs secrets (m ∷ ms) =
    mesh_refs secrets m.namespace m.spec.clusters ++ unsorted_refs secrets ms

-- `collectRefs`
unfoldable pub collect_refs : Tools → SecretVersions → List ClusterMesh → List ClusterRef
unfolding unsorted_refs
collect_refs tools secrets meshes = tools.sort_by_name (unsorted_refs secrets meshes)

-- `computeFingerprint`, from what its list call returned.
unfoldable pub compute_fingerprint :
    Tools → SecretVersions → Option (List ClusterMesh) → Option Text
unfolding collect_refs
compute_fingerprint tools secrets none = none
compute_fingerprint tools secrets (some meshes) =
    some (tools.digest (collect_refs tools secrets meshes))

-- `ChangeWatcher`: whether `Cancel` is set, and the fingerprint at the start.
pub record ChangeWatcher : Type 0 where
  pub can_cancel : Bool
  pub start_fingerprint : Text

-- What `Reconcile` does: `Cancel` is called or not, and it fails or not.
pub record WatchResult : Type 0 where
  pub cancelled : Bool
  pub failed : Bool

-- `Reconcile`, from what the list call returned.
unfoldable pub watch :
    Tools → SecretVersions → ChangeWatcher → Option (List ClusterMesh) → WatchResult
unfolding compute_fingerprint
watch tools secrets w listed = elim (compute_fingerprint tools secrets listed) [
  | none ↦ record { cancelled = false; failed = true }
  | some fingerprint ↦ record {
    cancelled = if str_eq fingerprint w.start_fingerprint then false else w.can_cancel;
    failed = false;
  }
]

-- The test of the inner loop of `secretToClusterMesh`.
unfoldable pub refers_to : Text → ClusterEntry → Bool
refers_to secret_name c = elim c.kubeconfig_secret_ref [
  | none ↦ false
  | some ref ↦ str_eq ref.name secret_name
]

-- The inner loop: one request for each entry that refers to the secret.
unfoldable pub entry_requests : Text → Request → List ClusterEntry → List Request
unfolding refers_to
entry_requests secret_name request [] = []
entry_requests secret_name request (c ∷ cs) =
    let rest = entry_requests secret_name request cs in
    if refers_to secret_name c then request ∷ rest else rest

unfoldable pub secret_requests : Text → List ClusterMesh → List Request
unfolding entry_requests
secret_requests secret_name [] = []
secret_requests secret_name (m ∷ ms) =
    entry_requests secret_name (record { namespace = m.namespace; name = m.name }) m.spec.clusters
    ++ secret_requests secret_name ms

-- `secretToClusterMesh`, from what its list call of the secret's namespace returned.
unfoldable pub secret_to_cluster_mesh : Text → Option (List ClusterMesh) → List Request
unfolding secret_requests
secret_to_cluster_mesh secret_name none = []
secret_to_cluster_mesh secret_name (some meshes) = secret_requests secret_name meshes
