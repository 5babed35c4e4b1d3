-- ===== src/Kilonode/Endpoint.antt =====
-- `ResolveEndpoint` of internal/kilonode/endpoint.go: the port of its results.
use kilo_clustermesh_operato.Base.{
  ℕ, ◌<◌, ◌^◌, ◌≡◌, refl, sym, ◌∙◌, subst, inl, inr, ◌⊎◌, Option, some, List, [], ◌∷◌, ◌==◌, String,
  if◌then◌else◌, Text, arith, Bool-cases, Option-cases, some-eq-some,
}
use kilo_clustermesh_operato.Base.Result.{Result, ok, Result-cases, ok-eq-ok}
use kilo_clustermesh_operato.Api.{Node, NodeAddress}
use kilo_clustermesh_operato.Go.Strings.{cut_last}
use kilo_clustermesh_operato.Go.Strconv.{parse_uint, format_uint}
use kilo_clustermesh_operato.Go.Strconv.Laws.{parse_uint-format_uint, has_char-format_uint}
use kilo_clustermesh_operato.Go.Net.HostPort.{split_host_port, join_host_port}
use kilo_clustermesh_operato.Go.Net.HostPort.Laws.{
  cut_last-join_host_port, cut_last_of_split_host_port,
}
use kilo_clustermesh_operato.Go.Net.Parse.{parse_ip}
use kilo_clustermesh_operato.Go.Net.Address.{to4}
use kilo_clustermesh_operato.Kilonode.{
  validate_host_port, scan_external_ips, resolve_from_external_ips, source, checked,
  resolve_endpoint, is_empty, is_external_ip, default_wireguard_port,
  annotation_clustermesh_endpoint, annotation_force_endpoint, EndpointError,
}

-- A text with a last colon and, behind it, a decimal number from 1 to 65535.
pub record HasPort (s : Text) : Type 0 where
  pub host : Text
  pub port_str : Text
  pub port : ℕ
  pub parts : cut_last b':' s ≡ some (host, port_str)
  pub value : parse_uint 16 port_str ≡ some port
  pub positive : 0 < port

module _ (s : Text) where
  validate_host_port-HasPort : validate_host_port s ≡ ok tt → HasPort s
  unfolding validate_host_port
  validate_host_port-HasPort h = elim (Option-cases (split_host_port s)) [
    | inl e ↦ cc (rw (e, validate_host_port) at h)
    | inr ((host, port_str), e) ↦ elim (Option-cases (parse_uint 16 port_str)) [
      | inl e' ↦ ground arith
      | inr (n, e') ↦
          let (before, parts) = cut_last_of_split_host_port s host port_str e in
          record {
            host = before;
            port_str = port_str;
            port = n;
            parts = parts;
            value = e';
            positive = ground arith;
          }
    ]
  ]

join_host_port-HasPort :
    (addr : Text) (n : ℕ) → 0 < n → n < 2 ^ 16 → HasPort (join_host_port addr (format_uint n))
join_host_port-HasPort addr n pos bound =
    let (before, parts) =
      cut_last-join_host_port addr (format_uint n) (has_char-format_uint b':' n refl) in
    record {
      host = before;
      port_str = format_uint n;
      port = n;
      parts = parts;
      value = parse_uint-format_uint 16 n bound (omega arith);
      positive = pos;
    }

-- A round either ends with the address at hand, or goes on.
scan-round :
    (a : NodeAddress) (addrs : List NodeAddress) (port first_v6 : Text)
    → (scan_external_ips (a ∷ addrs) port first_v6 ≡ some (join_host_port a.address port))
      ⊎ ((v6 : Text) × (scan_external_ips (a ∷ addrs) port first_v6
            ≡ scan_external_ips addrs port v6))
unfolding scan_external_ips
scan-round a addrs port first_v6 = elim (Bool-cases (is_external_ip a.kind)) [
  | inr other ↦ inr (first_v6, rw other)
  | inl external ↦ elim (Option-cases (parse_ip a.address)) [
    | inl e ↦ inr (first_v6, rw (external, e))
    | inr (ip, e) ↦ elim (Option-cases (to4 ip)) [
      | inl v6 ↦ inr (if is_empty first_v6 then a.address else first_v6, rw (external, e, v6))
      | inr (v4, e4) ↦ inl (rw (external, e, e4))
    ]
  ]
]

scan-joined :
    (addrs : List NodeAddress) (port first_v6 s : Text)
    → scan_external_ips addrs port first_v6 ≡ some s
    → (addr : Text) × (s ≡ join_host_port addr port)
unfolding scan_external_ips
scan-joined [] port first_v6 s e = (first_v6, ground arith)
scan-joined (a ∷ addrs) port first_v6 s e = elim (scan-round a addrs port first_v6) [
  | inl h ↦ (a.address, some-eq-some s _ (sym e ∙ h))
  | inr (v6, h) ↦ scan-joined addrs port v6 s (sym h ∙ e)
]

external-joined :
    (addrs : List NodeAddress) (n : ℕ) (s : Text)
    → resolve_from_external_ips addrs n ≡ some s
    → (addr : Text) × (s ≡ join_host_port addr (format_uint n))
unfolding resolve_from_external_ips
external-joined addrs n s e = scan-joined addrs (format_uint n) [] s e

checked-inv :
    (key : String) (node : Node) (val s : Text)
    → checked key node val ≡ ok (some s)
    → (validate_host_port val ≡ ok tt) × (val ≡ s)
unfolding checked
checked-inv key node val s e = elim (Result-cases (validate_host_port val)) [
  | inl (u, h) ↦ (h, ground arith)
  | inr (x, h) ↦ cc (rw (h, checked) at e)
]

-- The port that `ResolveEndpoint` falls back to.
abbrev used_port : ℕ → ℕ
used_port p = if p == 0 then default_wireguard_port else p

-- Whatever the source, an endpoint that `ResolveEndpoint` returns for a 16-bit fallback port ends
-- in a colon and a decimal port from 1 to 65535.
pub resolve_endpoint-HasPort :
    (node : Node) (fallback_port : ℕ) (s : Text)
    → fallback_port < 2 ^ 16
    → resolve_endpoint node fallback_port ≡ ok (some s)
    → HasPort s
unfolding resolve_endpoint
resolve_endpoint-HasPort node fallback_port s bound e =
    elim (Option-cases (source annotation_clustermesh_endpoint node)) [
      | inr (val, h) ↦ annotated annotation_clustermesh_endpoint val (rw (h, resolve_endpoint) at e)
      | inl h ↦ elim (Option-cases (source annotation_force_endpoint node)) [
        | inr (val, k) ↦ annotated annotation_force_endpoint val (rw (h, k, resolve_endpoint) at e)
        | inl k ↦ from_addresses (rw (h, k, resolve_endpoint) at e)
      ]
    ]
  where
    annotated : (key : String) (val : Text) → checked key node val ≡ ok (some s) → HasPort s
    annotated key val c =
        let (valid, same) = checked-inv key node val s c in
        subst HasPort same (validate_host_port-HasPort val valid)

    from_addresses :
        ◌≡◌ {A = Result EndpointError (Option Text)}
          (ok (resolve_from_external_ips node.addresses (used_port fallback_port)))
          (ok (some s))
        → HasPort s
    from_addresses c =
        let (addr, same) =
          external-joined node.addresses (used_port fallback_port) s (ok-eq-ok _ _ c) in
        subst HasPort (sym same)
          (join_host_port-HasPort addr (used_port fallback_port) (ground arith) (ground arith))
