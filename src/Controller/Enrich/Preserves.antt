-- ===== src/Controller/Enrich/Preserves.antt =====
-- What `enrichEndpointsFromDiscovered` of internal/controller/clustermesh_controller.go leaves of the
-- peers.
use kilo_clustermesh_operato.Base.{
  List-cases, ℕ, ◌≢◌, none, true, false, [], ◌∷◌, ◌++◌, str_eq, str_eq_iff, str_eq_refl, ◌≡◌, ◌<◌,
  ◌^◌, refl, inl, inr, Option, some, Text, Bool-cases, Option-cases,
}
use kilo_clustermesh_operato.Api.{Peer, PeerEndpoint}
use kilo_clustermesh_operato.Go.Strconv.{parse_uint, format_uint}
use kilo_clustermesh_operato.Go.Strconv.Laws.{parse_uint-inv}
use kilo_clustermesh_operato.Go.Net.HostPort.{split_host_port}
use kilo_clustermesh_operato.Controller.Enrich.{parse_discovered_endpoint, overrides, enrich_peer}

-- The endpoint has an IP, and the text is that IP, a colon and its port.
abbrev pub IsCurrent : Text → Option PeerEndpoint → Type 0
IsCurrent text configured =
    (e : PeerEndpoint) × (configured ≡ some e)
    × (e.dns_or_ip.ip ≢ [])
    × (text ≡ e.dns_or_ip.ip ++ (b':' ∷ format_uint e.port))

-- The text splits into a host and a port below 65536.
abbrev pub IsEndpointText : Text → Text → ℕ → Type 0
IsEndpointText text host port =
    (port_text : Text) × (split_host_port text ≡ some (host, port_text))
    × (parse_uint 16 port_text ≡ some port)
    × (port < 2 ^ 16)

abbrev pub with_endpoint : Peer → Text → ℕ → Peer
with_endpoint p host port = record p {
  spec = record (p.spec) {
    endpoint = some (record { dns_or_ip = record { dns = []; ip = host }; port = port });
  };
}

-- What becomes of a peer `p`: `q`.
abbrev pub Enriches : (Text → Option Text) → Peer → Peer → Type 0
Enriches discovered_by_key p q =
    (discovered_by_key p.spec.public_key ≡ none → q ≡ p)
    × ((text : Text)
        → discovered_by_key p.spec.public_key ≡ some text
        → (IsCurrent text p.spec.endpoint → q ≡ p)
          × ((host : Text) (port : ℕ)
              → (IsCurrent text p.spec.endpoint → ⊥)
              → IsEndpointText text host port
              → q ≡ with_endpoint p host port)
          × (((host : Text) (port : ℕ) → IsEndpointText text host port → ⊥) → q ≡ p))

overrides-current :
    (text : Text) (o : Option PeerEndpoint) → IsCurrent text o → overrides text o ≡ false
unfolding overrides
overrides-current text o (e, same, nonempty, written) =
    rw (same, written, overrides, str_eq_refl (e.dns_or_ip.ip ++ (b':' ∷ format_uint e.port)))
      (elim (List-cases e.dns_or_ip.ip) [
        | inl empty ↦ absurd (nonempty empty)
        | inr (b, bs, h) ↦ rw h refl
      ])

overrides-other :
    (text : Text) (o : Option PeerEndpoint) → (IsCurrent text o → ⊥) → overrides text o ≡ true
unfolding overrides
overrides-other text none out = refl
overrides-other text (some e) out = elim (List-cases e.dns_or_ip.ip) [
  | inl empty ↦ rw empty refl
  | inr (b, bs, h) ↦
      let written = e.dns_or_ip.ip ++ (b':' ∷ format_uint e.port) in
      elim (Bool-cases (str_eq text written)) [
        | inl hit ↦ absurd (out (e, refl, (λ empty. cc), (str_eq_iff text written).0 hit))
        | inr miss ↦ rw (h, rw h at miss) refl
      ]
]

parsed-text :
    (text : Text) (e : PeerEndpoint)
    → parse_discovered_endpoint text ≡ some e
    → (host : Text) × (port : ℕ) × IsEndpointText text host port
unfolding parse_discovered_endpoint
parsed-text text e h = elim (Option-cases (split_host_port text)) [
  | inl k ↦ cc (rw (k, parse_discovered_endpoint) at h)
  | inr ((host, port_str), k) ↦ elim (Option-cases (parse_uint 16 port_str)) [
    | inl l ↦ cc (rw (k, l, parse_discovered_endpoint) at h)
    | inr (port, l) ↦
        let (_, _, _, bound) = parse_uint-inv 16 port_str port l in
        (host, port, (port_str, k, l, bound))
  ]
]

-- What `enrichEndpointsFromDiscovered` makes of a peer: without a discovered text for its public key
-- the peer is as it was, and so it is where its configured endpoint has an IP and prints as that text,
-- and where the text is no host and port; in all other cases the peer has the host and the port of
-- the text, which is below 65536, as its endpoint, and is otherwise as it was.
pub enrich_peer-Enriches :
    (discovered_by_key : Text → Option Text) (p : Peer)
    → Enriches discovered_by_key p (enrich_peer discovered_by_key p)
unfolding enrich_peer parse_discovered_endpoint
enrich_peer-Enriches discovered_by_key p = (
  λ missing. rw (missing, enrich_peer) refl,
  λ text found. (
    λ current. rw (found, overrides-current text p.spec.endpoint current, enrich_peer) refl,
    λ host port other (port_text, split, parsed, _).
        rw (found, overrides-other text p.spec.endpoint other, split, parsed, enrich_peer) refl,
    λ malformed. elim (Bool-cases (overrides text p.spec.endpoint)) [
      | inr same ↦ rw (found, same, enrich_peer) refl
      | inl differs ↦ elim (Option-cases (parse_discovered_endpoint text)) [
        | inl bad ↦ rw (found, differs, bad, enrich_peer) refl
        | inr (e, good) ↦
            let (host, port, written) = parsed-text text e good in
            absurd (malformed host port written)
      ]
    ],
  ),
)
