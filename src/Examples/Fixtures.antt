-- ===== src/Examples/Fixtures.antt =====
-- A mesh of two clusters and a node of the first.
use kilo_clustermesh_operato.Base.{none, [], ◌∷◌, codes, true, false, replicate}
use kilo_clustermesh_operato.Api.{Node, internal_ip, external_ip, ClusterEntry, ClusterMesh}
use kilo_clustermesh_operato.Kilonode.{annotation_wireguard_ip, annotation_public_key}
use kilo_clustermesh_operato.Peer.Naming.{Platform}

abbrev pub entry_a : ClusterEntry
entry_a = record {
  name = codes "a";
  local = true;
  kubeconfig_secret_ref = none;
  allowed_networks = codes "10.1.0.0/16" ∷ codes "100.64.0.0/24" ∷ codes "10.96.0.0/16" ∷ [];
  wireguard_port = 51820;
  persistent_keepalive = 25;
}

abbrev pub entry_b : ClusterEntry
entry_b = record {
  name = codes "b";
  local = false;
  kubeconfig_secret_ref = none;
  allowed_networks = codes "10.2.0.0/16" ∷ codes "fd00:2::/64" ∷ [];
  wireguard_port = 0;
  persistent_keepalive = 0;
}

abbrev pub mesh_1 : ClusterMesh
mesh_1 = record {
  name = codes "m1";
  namespace = codes "kilo";
  spec = record { clusters = entry_a ∷ entry_b ∷ [] };
}

abbrev pub mesh_2 : ClusterMesh
mesh_2 = record {
  name = codes "m2";
  namespace = codes "kilo";
  spec = record { clusters = entry_b ∷ [] };
}

abbrev pub node_1 : Node
node_1 = record {
  name = codes "n1";
  annotations =
      (annotation_wireguard_ip, codes "100.64.0.1/24") ∷ (annotation_public_key, codes "k1") ∷ [];
  pod_cidrs = codes "10.1.4.0/24" ∷ [];
  addresses =
      record { kind = internal_ip; address = codes "172.16.0.4" }
      ∷ record { kind = external_ip; address = codes "192.0.2.1" }
      ∷ [];
}

-- A node that Kilo has not written its annotations on.
abbrev pub node_2 : Node
node_2 = record {
  name = codes "n2";
  annotations = [];
  pod_cidrs = codes "10.1.5.0/24" ∷ [];
  addresses = [];
}

-- Enough of a platform for ASCII names.
abbrev pub ascii : Platform
ascii = record { lower_rune = λ c. c; hash16 = λ s. replicate 16 b'0' }
