-- ===== src/Controller/Desired/Complete.antt =====
-- `filterNodes` and `buildDesiredPeers` of internal/controller/clustermesh_controller.go together.
use kilo_clustermesh_operato.Base.{
  ℕ, suc, ◌^◌, ◌<◌, ◌≡◌, refl, inl, inr, ap, List, [], ◌∷◌, Text, none, length, In, All,
}
use kilo_clustermesh_operato.Base.Result.{ok}
use kilo_clustermesh_operato.Api.{Node, ClusterEntry, Peer}
use kilo_clustermesh_operato.Validation.Node.{validate_node}
use kilo_clustermesh_operato.Peer.Naming.{Platform}
use kilo_clustermesh_operato.Peer.Builder.{collect_anchor_cidrs}
use kilo_clustermesh_operato.Peer.Builder.Valid.{HasValidPort, validated_node-gets_peer}
use kilo_clustermesh_operato.Controller.Nodes.{filter_nodes}
use kilo_clustermesh_operato.Controller.Nodes.Counts.{filter_nodes-Accounts}
use kilo_clustermesh_operato.Controller.Desired.{build_peers, build_desired_peers}

module _ (os : Platform) (mesh_name : Text) (entry : ClusterEntry) (keepalive : ℕ)
    (bound : entry.wireguard_port < 2 ^ 16) where
  build_peers-Complete :
      (extras : List Text) (nodes : List Node)
      → ((n : Node) → In n nodes → validate_node n entry ≡ none)
      → (peers : List Peer) × (build_peers os mesh_name entry extras nodes keepalive ≡ ok peers)
        × (length peers ≡ length nodes)
        × All (λ p. HasValidPort p.spec.endpoint) peers
  unfolding build_peers
  build_peers-Complete extras [] valid = ([], refl, refl, tt)
  build_peers-Complete extras (node ∷ nodes) valid =
      let (p, built, port) =
        validated_node-gets_peer os mesh_name entry node extras keepalive bound
          (valid node (inl refl)) in
      let (rest, built', same, ports) = build_peers-Complete [] nodes (λ n i. valid n (inr i)) in
      (p ∷ rest, rw (built, built') refl, ap suc same, (port, ports))

  -- The nodes that `filterNodes` leaves of any list of nodes, for an entry with a 16-bit port, all
  -- become peers: `buildDesiredPeers` has no error on them and returns one peer for each, whose
  -- endpoint, if it has one, has a port from 1 to 65535.
  pub filtered_nodes-get_peers :
      (nodes : List Node)
      → (peers : List Peer) × (build_desired_peers os mesh_name entry
            (filter_nodes nodes entry).valid
            keepalive
          ≡ ok peers)
        × (length peers ≡ length (filter_nodes nodes entry).valid)
        × All (λ p. HasValidPort p.spec.endpoint) peers
  unfolding build_desired_peers
  filtered_nodes-get_peers nodes =
      let (_, _, members) = filter_nodes-Accounts nodes entry in
      let valid = (filter_nodes nodes entry).valid in
      build_peers-Complete (collect_anchor_cidrs entry valid) valid (λ n i. ((members n).0 i).1.1)
