-- ===== src/Multicluster/Registry.antt =====
-- internal/multicluster/registry.go and client.go, with `mergeClusterEntries` of cmd/main.go. What
-- client-go and controller-runtime do is a parameter: the secrets of the local cluster, the parser
-- of a kubeconfig and the constructor of a cluster. Log lines are not modelled.
pub mod Merged
pub mod Built
use kilo_clustermesh_operato.Base.{
  Bool, true, false, Option, none, some, List, [], ◌∷◌, ◌++◌, if◌then◌else◌, Text, str_eq, any, map,
  get_key, set_key,
}
use kilo_clustermesh_operato.Base.Result.{Result, ok, err, ◌>>=◌, or_fail, wrap}
use kilo_clustermesh_operato.Api.{ClusterEntry, ClusterMesh, SecretKeyRef}

-- `EntrySource`
pub record EntrySource : Type 0 where
  pub entry : ClusterEntry
  pub mesh_namespace : Text

-- The errors of `configForEntry` and `RestConfigFromSecret`.
pub data ConfigError : Type 0 where
  no_secret_ref : Text → ConfigError
  getting_secret : Text → Text → ConfigError
  no_secret_key : Text → Text → Text → ConfigError
  parsing_kubeconfig : ConfigError
  building_config : Text → ConfigError → ConfigError

-- What the build needs of the libraries. `secret_data` is the data of the secret of a namespace and
-- a name, `none` if the call fails.
pub record Environment (Config Cluster : Type 0) : Type 0 where
  pub secret_data : Text → Text → Option (List (Text × Text))
  pub parse_kubeconfig : Text → Option Config
  pub new_cluster : Config → Option Cluster
  pub local_config : Config

-- `ClusterRegistry`
pub record ClusterRegistry (Cluster : Type 0) : Type 0 where
  pub clusters : List (Text × Cluster)
  pub local : Text

-- The entries of a mesh with its namespace.
unfoldable pub tagged : Text → List ClusterEntry → List EntrySource
tagged namespace [] = []
tagged namespace (e ∷ es) = record { entry = e; mesh_namespace = namespace } ∷ tagged namespace es

-- The entries in the order in which the two loops of `mergeClusterEntries` visit them.
unfoldable pub all_entries : List ClusterMesh → List EntrySource
unfolding tagged
all_entries [] = []
all_entries (m ∷ ms) = tagged m.namespace m.spec.clusters ++ all_entries ms

-- The body of the loops, from the names seen so far.
unfoldable pub merge_from : List Text → List EntrySource → List EntrySource
merge_from seen [] = []
merge_from seen (src ∷ srcs) =
    let skipped = merge_from seen srcs in
    let kept = src ∷ merge_from (src.entry.name ∷ seen) srcs in
    if any (str_eq src.entry.name) seen then skipped else kept

-- `mergeClusterEntries`
unfoldable pub merge_cluster_entries : List ClusterMesh → List EntrySource
unfolding merge_from all_entries
merge_cluster_entries meshes = merge_from [] (all_entries meshes)

module _ {Config Cluster : Type 0} (env : Environment Config Cluster) where
  open env use {secret_data, parse_kubeconfig, new_cluster, local_config}

  -- `RestConfigFromSecret`
  unfoldable pub rest_config_from_secret : Text → SecretKeyRef → Result ConfigError Config
  rest_config_from_secret namespace ref = do
    secret ← or_fail (secret_data namespace ref.name) (getting_secret namespace ref.name)
    kubeconfig ← or_fail (get_key ref.key secret) (no_secret_key namespace ref.name ref.key)
    or_fail (parse_kubeconfig kubeconfig) parsing_kubeconfig

  -- `configForEntry`
  unfoldable pub config_for_entry : ClusterEntry → Text → Result ConfigError Config
  unfolding rest_config_from_secret
  config_for_entry entry mesh_namespace =
      if entry.local then ok local_config else elim entry.kubeconfig_secret_ref [
        | none ↦ err (no_secret_ref entry.name)
        | some ref ↦ wrap (building_config entry.name) (rest_config_from_secret mesh_namespace ref)
      ]

  -- `reg.local = entry.Name` under its test.
  abbrev pub mark_local : ClusterEntry → ClusterRegistry Cluster → ClusterRegistry Cluster
  mark_local entry reg = if entry.local then record reg { local = entry.name } else reg

  -- One round of the loop of `Build`; an entry that fails is skipped.
  unfoldable pub add_entry : EntrySource → ClusterRegistry Cluster → ClusterRegistry Cluster
  unfolding config_for_entry
  add_entry src reg = elim (config_for_entry src.entry src.mesh_namespace) [
    | err e ↦ reg
    | ok cfg ↦ elim (new_cluster cfg) [
      | none ↦ mark_local src.entry reg
      | some c ↦ record (mark_local src.entry reg) {
        clusters = set_key src.entry.name c reg.clusters;
      }
    ]
  ]

  unfoldable pub add_entries : List EntrySource → ClusterRegistry Cluster → ClusterRegistry Cluster
  unfolding add_entry
  add_entries [] reg = reg
  add_entries (src ∷ srcs) reg = add_entries srcs (add_entry src reg)

  -- `Build`
  unfoldable pub build : List EntrySource → ClusterRegistry Cluster
  unfolding add_entries
  build entries = add_entries entries (record { clusters = []; local = [] })

  -- `buildInitialRegistry`, from what its list call returned.
  unfoldable pub build_initial_registry :
      Option (List ClusterMesh) → Option (ClusterRegistry Cluster)
  unfolding build merge_cluster_entries
  build_initial_registry none = none
  build_initial_registry (some meshes) = some (build (merge_cluster_entries meshes))

-- `ClusterRegistry.Get` and, up to the method that reads its client, `ClusterRegistry.Client`.
unfoldable pub client_of : {Cluster : Type 0} → ClusterRegistry Cluster → Text → Option Cluster
client_of reg name = get_key name reg.clusters

-- `ClusterRegistry.Clusters`
unfoldable pub cluster_names : {Cluster : Type 0} → ClusterRegistry Cluster → List Text
cluster_names reg = map (λ e. e.0) reg.clusters
