-- ===== src/Controller/Desired.antt =====
-- `buildDesiredPeers` and `meshPersistentKeepalive` of
-- internal/controller/clustermesh_controller.go.
pub mod Complete
pub mod Keepalive
use Prim.Native.Nat.{max}
use kilo_clustermesh_operato.Base.{ℕ, List, [], ◌∷◌, Text}
use kilo_clustermesh_operato.Base.Result.{Result, ok, err, ◌>>=◌}
use kilo_clustermesh_operato.Api.{Node, ClusterEntry, Peer}
use kilo_clustermesh_operato.Peer.Naming.{Platform}
use kilo_clustermesh_operato.Peer.Builder.{BuildError, build_peer, collect_anchor_cidrs}

-- The loop of `buildDesiredPeers`; only the first round has extras.
unfoldable pub build_peers :
    Platform → Text → ClusterEntry → List Text → List Node → ℕ → Result BuildError (List Peer)
build_peers os mesh_name entry extras [] keepalive = ok []
build_peers os mesh_name entry extras (node ∷ nodes) keepalive = do
  p ← build_peer os mesh_name entry node extras keepalive
  rest ← build_peers os mesh_name entry [] nodes keepalive
  ok (p ∷ rest)

-- `buildDesiredPeers`
unfoldable pub build_desired_peers :
    Platform → Text → ClusterEntry → List Node → ℕ → Result BuildError (List Peer)
unfolding build_peers
build_desired_peers os mesh_name entry nodes keepalive =
    build_peers os mesh_name entry (collect_anchor_cidrs entry nodes) nodes keepalive

-- The loop of `meshPersistentKeepalive`.
unfoldable pub keepalive_from : ℕ → List ClusterEntry → ℕ
keepalive_from keepalive [] = keepalive
keepalive_from keepalive (c ∷ cs) = keepalive_from (max keepalive c.persistent_keepalive) cs

-- `meshPersistentKeepalive`, of the mesh's clusters.
unfoldable pub mesh_persistent_keepalive : List ClusterEntry → ℕ
unfolding keepalive_from
mesh_persistent_keepalive clusters = keepalive_from 0 clusters
