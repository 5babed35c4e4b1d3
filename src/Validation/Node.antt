-- ===== src/Validation/Node.antt =====
-- internal/validation/node.go: which nodes may become peers. The messages that go with a reason
-- are not modelled.
pub mod Accepted
use kilo_clustermesh_operato.Base.{
  ℕ, Bool, true, false, ◌&&◌, ◌||◌, not, Option, none, some, List, [], ◌∷◌, String, if◌then◌else◌,
  Text, lookup, str_eq, any,
}
use kilo_clustermesh_operato.Base.Result.{Result, ok, err}
use kilo_clustermesh_operato.Api.{Node, ClusterEntry}
use kilo_clustermesh_operato.Netutil.{parse_cidr, parse_host_in_cidr, cidr_contains}
use kilo_clustermesh_operato.Go.Net.Address.{Ip, IpNet, contains}
use kilo_clustermesh_operato.Go.Net.Format.{ip_string}
use kilo_clustermesh_operato.Kilonode.{
  annotation_wireguard_ip, annotation_public_key, resolve_endpoint, source,
}

-- `NodeSkipReason`
pub data NodeSkipReason : Type 0 where
  no_pod_cidr pod_cidr_out_of_range no_wireguard_ip wgip_invalid wgip_out_of_range wgip_duplicate
        no_public_key no_endpoint endpoint_invalid :
      NodeSkipReason

-- `IsTransient`
unfoldable pub is_transient : NodeSkipReason → Bool
is_transient no_pod_cidr = true
is_transient no_wireguard_ip = true
is_transient no_public_key = true
is_transient no_endpoint = true
is_transient pod_cidr_out_of_range = false
is_transient wgip_invalid = false
is_transient wgip_out_of_range = false
is_transient wgip_duplicate = false
is_transient endpoint_invalid = false

-- The loop over `AllowedNetworks`: some entry that parses passes the test.
unfoldable pub some_network : (IpNet → Bool) → List Text → Bool
some_network p [] = false
some_network p (s ∷ ss) = elim (parse_cidr s) [
  | none ↦ some_network p ss
  | some n ↦ if p n then true else some_network p ss
]

-- `validatePodCIDR`; `some` is the reason to skip the node, here and below.
unfoldable pub validate_pod_cidr : List Text → ClusterEntry → Option NodeSkipReason
validate_pod_cidr [] entry = some no_pod_cidr
validate_pod_cidr (s ∷ ss) entry = elim (parse_cidr s) [
  | none ↦ some no_pod_cidr
  | some node_cidr ↦
      if some_network (λ n. cidr_contains n node_cidr) entry.allowed_networks
      then none
      else some pod_cidr_out_of_range
]

-- `validateWireguardIP`
unfoldable pub validate_wireguard_ip : Node → ClusterEntry → Option NodeSkipReason
validate_wireguard_ip node entry = elim (source annotation_wireguard_ip node) [
  | none ↦ some no_wireguard_ip
  | some wg_ip ↦ elim (parse_host_in_cidr wg_ip) [
    | none ↦ some wgip_invalid
    | some (host_ip, network) ↦
        if some_network (λ n. contains n host_ip) entry.allowed_networks
        then none
        else some wgip_out_of_range
  ]
]

-- `validatePublicKey`
unfoldable pub validate_public_key : Node → Option NodeSkipReason
validate_public_key node = elim (source annotation_public_key node) [
  | none ↦ some no_public_key
  | some key ↦ none
]

-- `validateEndpoint`
unfoldable pub validate_endpoint : Node → ClusterEntry → Option NodeSkipReason
validate_endpoint node entry = elim (resolve_endpoint node entry.wireguard_port) [
  | ok found ↦ none
  | err e ↦ some endpoint_invalid
]

-- The first reason of a chain of checks.
infixr 20 ◌or_else◌
abbrev pub ◌or_else◌ : Option NodeSkipReason → Option NodeSkipReason → Option NodeSkipReason
some r or_else o = some r
none or_else o = o

-- `ValidateNode`: `none` for (false, "", "").
unfoldable pub validate_node : Node → ClusterEntry → Option NodeSkipReason
validate_node node entry =
    validate_pod_cidr node.pod_cidrs entry
    or_else validate_wireguard_ip node entry
    or_else validate_public_key node
    or_else validate_endpoint node entry

-- `normalizeWGIPKey`
unfoldable pub normalize_wgip_key : Text → Text
normalize_wgip_key wg_ip = elim (parse_host_in_cidr wg_ip) [
  | none ↦ wg_ip
  | some (host_ip, network) ↦ ip_string host_ip
]

-- The loop of `FindDuplicateWGIPs`: the keys seen so far, and the names of the duplicates.
unfoldable pub find_duplicates_from : List Text → List Node → List Text
find_duplicates_from seen [] = []
find_duplicates_from seen (node ∷ nodes) = elim (source annotation_wireguard_ip node) [
  | none ↦ find_duplicates_from seen nodes
  | some wg_ip ↦
      let key = normalize_wgip_key wg_ip in
      let again = find_duplicates_from seen nodes in
      let first = find_duplicates_from (key ∷ seen) nodes in
      if any (str_eq key) seen then node.name ∷ again else first
]

-- `FindDuplicateWGIPs`: the keys of the returned map, whose values are all `WGIPDuplicate`.
unfoldable pub find_duplicate_wgips : List Node → List Text
unfolding find_duplicates_from
find_duplicate_wgips nodes = find_duplicates_from [] nodes
