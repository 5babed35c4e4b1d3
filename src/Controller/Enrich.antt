-- ===== src/Controller/Enrich.antt =====
-- `enrichEndpointsFromDiscovered` and `parseDiscoveredEndpoint` of
-- internal/controller/clustermesh_controller.go. What `DiscoveredEndpointsByKey` returns, the map of
-- observed endpoints or the failed list call, is a parameter.
pub mod Preserves
pub mod RoundTrip
pub mod Observed
use kilo_clustermesh_operato.Base.{
  Bool, true, false, ◌||◌, not, Option, none, some, List, [], ◌∷◌, ◌++◌, if◌then◌else◌, Text,
  str_eq, map,
}
use kilo_clustermesh_operato.Api.{Peer, PeerSpec, PeerEndpoint, DnsOrIp}
use kilo_clustermesh_operato.Kilonode.{is_empty}
use kilo_clustermesh_operato.Go.Strconv.{parse_uint, format_uint}
use kilo_clustermesh_operato.Go.Net.HostPort.{split_host_port}

-- `parseDiscoveredEndpoint`: `none` for either error.
unfoldable pub parse_discovered_endpoint : Text → Option PeerEndpoint
parse_discovered_endpoint host_port = elim (split_host_port host_port) [
  | none ↦ none
  | some (host, port_str) ↦ elim (parse_uint 16 port_str) [
    | none ↦ none
    | some port ↦ some (record { dns_or_ip = record { dns = []; ip = host }; port = port })
  ]
]

-- The test of the loop: the configured endpoint has no IP, or differs from the discovered text.
unfoldable pub overrides : Text → Option PeerEndpoint → Bool
overrides discovered none = true
overrides discovered (some e) =
    is_empty e.dns_or_ip.ip
    || not (str_eq discovered (e.dns_or_ip.ip ++ (b':' ∷ format_uint e.port)))

-- One round of the loop.
unfoldable pub enrich_peer : (Text → Option Text) → Peer → Peer
unfolding parse_discovered_endpoint overrides
enrich_peer discovered_by_key p = elim (discovered_by_key p.spec.public_key) [
  | none ↦ p
  | some discovered ↦
      if overrides discovered p.spec.endpoint
      then elim (parse_discovered_endpoint discovered) [
        | none ↦ p
        | some e ↦ record p { spec = record (p.spec) { endpoint = some e } }
      ]
      else p
]

-- `enrichEndpointsFromDiscovered` and what its caller makes of an error: the peers as they
-- are. An empty map finds no peer's key.
unfoldable pub enrich_endpoints : Option (Text → Option Text) → List Peer → List Peer
unfolding enrich_peer
enrich_endpoints none desired = desired
enrich_endpoints (some discovered_by_key) desired = map (enrich_peer discovered_by_key) desired
