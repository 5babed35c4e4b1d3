-- ===== src/Examples/Pushes.antt =====
-- A push to the second cluster in memory.
use kilo_clustermesh_operato.Base.{some, [], ◌∷◌, codes}
use kilo_clustermesh_operato.Api.{Peer, Node}
use kilo_clustermesh_operato.Peer.Naming.{labels}
use kilo_clustermesh_operato.Peer.Reconciler.Settled.{Settled}
use kilo_clustermesh_operato.Examples.Fixtures.{node_1}
use kilo_clustermesh_operato.Controller.Frame.{IsFleet}
use kilo_clustermesh_operato.Controller.Objects.{ClusterMeshReconciler, ClusterClient}
use kilo_clustermesh_operato.Kilonode.Discovered.{pos, annotation_discovered_endpoints}
use kilo_clustermesh_operato.Examples.Fleet.{
  Fleet, client_b, find_in, controller_of, controller-IsFleet,
}
use kilo_clustermesh_operato.Examples.Sync.{peer_of}
use kilo_clustermesh_operato.Examples.Clusters.{api, nodes_of_a}

-- The push of a desired peer.
abbrev sent : Peer
sent = peer_of "m1--a--n2" (labels (codes "m1") (codes "a")) "k2" "10.1.5.0/24"

-- A node of the cluster "b" that has observed the endpoint of the peer.
abbrev observer_b : Node
observer_b = record node_1 { annotations = (annotation_discovered_endpoints, codes "{}") ∷ [] }

abbrev client : ClusterClient Fleet
client = client_b (some (observer_b ∷ []))

abbrev observing : ClusterMeshReconciler Fleet
observing = record (controller_of api nodes_of_a (some (observer_b ∷ []))) {
  decode = λ raw. some ((codes "k2", record { ip = codes "203.0.113.9"; port = pos 41000 }) ∷ []);
}

abbrev observing_fleet : IsFleet observing find_in
observing_fleet =
    let f = controller-IsFleet api nodes_of_a (some (observer_b ∷ [])) in
    record { stores = f.stores; apart = f.apart; nodes = f.nodes }
