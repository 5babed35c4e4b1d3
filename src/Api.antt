-- ===== src/Api.antt =====
-- The objects that the program reads and writes: api/v1alpha1/clustermesh_types.go,
-- pkg/kilo/v1alpha1/types.go, and of Kubernetes' Node, ObjectMeta and Condition the fields used.
-- A map of strings with literal keys is an association list.
use kilo_clustermesh_operato.Base.{ℕ, Bool, Option, List, String, Text}

-- `SecretKeyRef`
pub record SecretKeyRef : Type 0 where
  pub name : Text
  pub key : Text

-- `ClusterEntry`. The CRD's schema keeps the port in 1..65535 and the keepalive in 0..65535.
pub record ClusterEntry : Type 0 where
  pub name : Text
  pub local : Bool
  pub kubeconfig_secret_ref : Option SecretKeyRef
  pub allowed_networks : List Text
  pub wireguard_port : ℕ
  pub persistent_keepalive : ℕ

-- `AllCIDRs`
unfoldable pub all_cidrs : ClusterEntry → List Text
all_cidrs c = c.allowed_networks

-- `ClusterMeshSpec`
pub record ClusterMeshSpec : Type 0 where
  pub clusters : List ClusterEntry

-- `ClusterStatus`
pub record ClusterStatus : Type 0 where
  pub name : Text
  pub registered_peers : ℕ
  pub skipped_nodes : ℕ

-- A node's address: `corev1.NodeAddressType` and the text.
pub data AddressType : Type 0 where
  hostname internal_ip external_ip internal_dns external_dns : AddressType

pub record NodeAddress : Type 0 where
  pub kind : AddressType
  pub address : Text

pub record Node : Type 0 where
  pub name : Text
  pub annotations : List (String × Text)
  pub pod_cidrs : List Text
  pub addresses : List NodeAddress

-- `DNSOrIP`
pub record DnsOrIp : Type 0 where
  pub dns : Text
  pub ip : Text

-- `PeerEndpoint`
pub record PeerEndpoint : Type 0 where
  pub dns_or_ip : DnsOrIp
  pub port : ℕ

-- `PeerSpec`
pub record PeerSpec : Type 0 where
  pub allowed_ips : List Text
  pub endpoint : Option PeerEndpoint
  pub persistent_keepalive : ℕ
  pub preshared_key : Text
  pub public_key : Text

-- `Peer`: name and labels of its metadata, and the specification.
pub record Peer : Type 0 where
  pub name : Text
  pub labels : List (String × Text)
  pub spec : PeerSpec

-- `ClusterMesh`: name and namespace of its metadata, and the specification.
pub record ClusterMesh : Type 0 where
  pub name : Text
  pub namespace : Text
  pub spec : ClusterMeshSpec
