-- ===== src/Kilonode.antt =====
-- internal/kilonode: the annotations that Kilo writes on a node, and the endpoint of a node
-- (annotations.go, endpoint.go).
pub mod Endpoint
pub mod Discovered
use kilo_clustermesh_operato.Base.{
  ℕ, Bool, true, false, ◌&&◌, Option, none, some, List, [], ◌∷◌, ◌==◌, String, if◌then◌else◌, Text,
  lookup, length,
}
use kilo_clustermesh_operato.Base.Result.{Result, ok, err, guard, or_fail, wrap, ◌>>=◌, ◌>>◌}
use kilo_clustermesh_operato.Api.{
  Node, NodeAddress, AddressType, hostname, internal_ip, external_ip, internal_dns, external_dns,
}
use kilo_clustermesh_operato.Go.Strconv.{parse_uint, format_uint}
use kilo_clustermesh_operato.Go.Net.Address.{to4}
use kilo_clustermesh_operato.Go.Net.Parse.{parse_ip}
use kilo_clustermesh_operato.Go.Net.HostPort.{split_host_port, join_host_port}

abbrev pub annotation_wireguard_ip : String
annotation_wireguard_ip = "kilo.squat.ai/wireguard-ip"

abbrev pub annotation_public_key : String
annotation_public_key = "kilo.squat.ai/key"

abbrev pub annotation_force_endpoint : String
annotation_force_endpoint = "kilo.squat.ai/force-endpoint"

abbrev pub annotation_clustermesh_endpoint : String
annotation_clustermesh_endpoint = "kilo.squat.ai/clustermesh-endpoint"

abbrev pub default_wireguard_port : ℕ
default_wireguard_port = 51820

pub data HostPortError : Type 0 where
  not_host_port host_empty port_not_uint16 port_zero : HostPortError

-- The annotation, the node, the value and what is wrong with it.
pub data EndpointError : Type 0 where
  bad_annotation : String → Text → Text → HostPortError → EndpointError

abbrev pub is_empty : Text → Bool
is_empty [] = true
is_empty (c ∷ s) = false

-- `validateHostPort`
unfoldable pub validate_host_port : Text → Result HostPortError (Unit {0})
validate_host_port s = do
  (host, port_str) ← or_fail (split_host_port s) not_host_port
  guard (if is_empty host then false else true) host_empty
  port ← or_fail (parse_uint 16 port_str) port_not_uint16
  guard (if port == 0 then false else true) port_zero

-- `addr.Type != corev1.NodeExternalIP`
abbrev pub is_external_ip : AddressType → Bool
is_external_ip external_ip = true
is_external_ip _ = false

-- The loop of `resolveFromExternalIPs`, from the first IPv6 address seen so far: the first IPv4
-- address ends it.
unfoldable pub scan_external_ips : List NodeAddress → Text → Text → Option Text
scan_external_ips [] port first_v6 =
    if is_empty first_v6 then none else some (join_host_port first_v6 port)
scan_external_ips (a ∷ addrs) port first_v6 =
    let skipped = scan_external_ips addrs port first_v6 in
    let recorded =
      scan_external_ips addrs port (if is_empty first_v6 then a.address else first_v6) in
    if is_external_ip a.kind
    then elim (parse_ip a.address) [
      | none ↦ skipped
      | some ip ↦ elim (to4 ip) [ some v4 ↦ some (join_host_port a.address port) | none ↦ recorded ]
    ]
    else skipped

-- `resolveFromExternalIPs`
unfoldable pub resolve_from_external_ips : List NodeAddress → ℕ → Option Text
unfolding scan_external_ips
resolve_from_external_ips addrs port = scan_external_ips addrs (format_uint port) []

-- An annotation that is present and not empty.
unfoldable pub source : String → Node → Option Text
source key node = elim (lookup key node.annotations) [
  | none ↦ none
  | some val ↦ if is_empty val then none else some val
]

-- The value of an endpoint annotation, once checked.
unfoldable pub checked : String → Node → Text → Result EndpointError (Option Text)
checked key node val = do
  wrap (bad_annotation key node.name val) (validate_host_port val)
  ok (some val)

-- `ResolveEndpoint`: `ok none` for ("", false, nil).
unfoldable pub resolve_endpoint : Node → ℕ → Result EndpointError (Option Text)
unfolding source checked
resolve_endpoint node fallback_port = elim (source annotation_clustermesh_endpoint node) [
  | some val ↦ checked annotation_clustermesh_endpoint node val
  | none ↦ elim (source annotation_force_endpoint node) [
    | some val ↦ checked annotation_force_endpoint node val
    | none ↦ ok (
        resolve_from_external_ips node.addresses
          (if fallback_port == 0 then default_wireguard_port else fallback_port))
  ]
]
