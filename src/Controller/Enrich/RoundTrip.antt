-- ===== src/Controller/Enrich/RoundTrip.antt =====
-- `parseDiscoveredEndpoint` of internal/controller/clustermesh_controller.go on the endpoints that
-- internal/kilonode/discovered.go makes.
use kilo_clustermesh_operato.Base.{
  ℕ, zero, suc, ◌<◌, ◌^◌, ◌≡◌, refl, sym, ◌∙◌, ap, inl, inr, false, ◌||◌, some, [], Text, arith,
  Bool-cases, Option-cases, some-eq-some,
}
use kilo_clustermesh_operato.Go.Strconv.{format_uint}
use kilo_clustermesh_operato.Go.Strconv.Laws.{parse_uint-format_uint, has_char-format_uint}
use kilo_clustermesh_operato.Go.Net.Parse.{parse_ip}
use kilo_clustermesh_operato.Go.Net.HostPort.{join_host_port}
use kilo_clustermesh_operato.Go.Net.HostPort.RoundTrip.{
  IsUnbracketed, split_host_port-join_host_port,
}
use kilo_clustermesh_operato.Kilonode.{is_empty}
use kilo_clustermesh_operato.Kilonode.Discovered.{
  DiscoveredEntry, ℤ, pos, negsuc, is_loopback, is_link_local_unicast, observed_endpoint,
}
use kilo_clustermesh_operato.Controller.Enrich.{parse_discovered_endpoint}

-- The text of an endpoint is made of the entry's address and its port, which is positive.
abbrev IsJoined : DiscoveredEntry → Text → Type 0
IsJoined entry text =
    (n : ℕ) × (entry.port ≡ pos (suc n)) × (text ≡ join_host_port entry.ip (format_uint (suc n)))

module _ (entry : DiscoveredEntry) (text : Text) (e : observed_endpoint entry ≡ some text)
    (full : is_empty entry.ip ≡ false) where
  port_positive : (n : ℕ) → entry.port ≡ pos (suc n) → IsJoined entry text
  unfolding observed_endpoint
  port_positive n same = elim (Option-cases (parse_ip entry.ip)) [
    | inl bad ↦ cc (rw (full, same, bad, observed_endpoint) at e)
    | inr (ip, parsed) ↦ elim (Bool-cases (is_loopback ip || is_link_local_unicast ip)) [
      | inl local ↦ cc (rw (full, same, parsed, local, observed_endpoint) at e)
      | inr global ↦ (
        n,
        same,
        sym (some-eq-some _ _ (rw (full, same, parsed, global, observed_endpoint) at e)),
      )
    ]
  ]

  by_port : (p : ℤ) → entry.port ≡ p → IsJoined entry text
  unfolding observed_endpoint
  by_port (negsuc n) same = cc (rw (full, same, observed_endpoint) at e)
  by_port (pos zero) same = cc (rw (full, same, observed_endpoint) at e)
  by_port (pos (suc n)) same = port_positive n same

observed-IsJoined :
    (entry : DiscoveredEntry) (text : Text)
    → observed_endpoint entry ≡ some text
    → IsJoined entry text
unfolding observed_endpoint
observed-IsJoined entry text e = elim (Bool-cases (is_empty entry.ip)) [
  | inl h ↦ cc (rw (h, observed_endpoint) at e)
  | inr full ↦ by_port entry text e full entry.port refl
]

format_uint-IsUnbracketed : (n : ℕ) → IsUnbracketed (format_uint n)
format_uint-IsUnbracketed n = record {
  no_left = has_char-format_uint b'[' n refl;
  no_right = has_char-format_uint b']' n refl;
}

parse-joined :
    (ip : Text) (n : ℕ)
    → n < 2 ^ 16
    → IsUnbracketed ip
    → parse_discovered_endpoint (join_host_port ip (format_uint n))
      ≡ some (record { dns_or_ip = record { dns = []; ip = ip }; port = n })
unfolding parse_discovered_endpoint
parse-joined ip n bound plain =
    rw
      (
        split_host_port-join_host_port ip (format_uint n) plain (format_uint-IsUnbracketed n)
            (has_char-format_uint b':' n refl),
        parse_uint-format_uint 16 n bound (omega arith),
        parse_discovered_endpoint,
      )
      refl

-- The endpoint that is read from a node's annotation survives as text: what `observed_endpoint` makes
-- of an entry with a port below 65536 and an address without brackets, `parseDiscoveredEndpoint` reads
-- back as the endpoint of that address, no DNS name and that port, which is positive.
pub parse_discovered_endpoint-observed_endpoint :
    (entry : DiscoveredEntry) (text : Text) (port : ℕ)
    → observed_endpoint entry ≡ some text
    → entry.port ≡ pos port
    → port < 2 ^ 16
    → IsUnbracketed entry.ip
    → (0 < port)
      × (parse_discovered_endpoint text
          ≡ some (record { dns_or_ip = record { dns = []; ip = entry.ip }; port = port }))
parse_discovered_endpoint-observed_endpoint entry text port e same bound plain =
    let (n, positive, joined) = observed-IsJoined entry text e in
    let found : suc n ≡ port =
      ap (λ p. elim p [ pos k ↦ k | negsuc k ↦ 0 ]) (sym positive ∙ same) in
    (
      omega arith,
      ap parse_discovered_endpoint
            (joined ∙ ap (λ k. join_host_port entry.ip (format_uint k)) found)
          ∙ parse-joined entry.ip port bound plain,
    )
