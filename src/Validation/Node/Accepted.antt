-- ===== src/Validation/Node/Accepted.antt =====
-- `ValidateNode` of internal/validation/node.go, and what it asks of a node.
use kilo_clustermesh_operato.Base.{
  ◌≡◌, ◌↔◌, refl, sym, subst, some-eq-some, inl, inr, ◌∙◌, ap, Bool, true, Option, none, some, List,
  [], ◌∷◌, Text, In, Bool-cases, Option-cases,
}
use kilo_clustermesh_operato.Base.Result.{ok, Result-cases}
use kilo_clustermesh_operato.Api.{Node, ClusterEntry}
use kilo_clustermesh_operato.Netutil.{parse_cidr, parse_host_in_cidr, cidr_contains}
use kilo_clustermesh_operato.Go.Net.Address.{Ip, IpNet, contains}
use kilo_clustermesh_operato.Kilonode.{
  annotation_wireguard_ip, annotation_public_key, resolve_endpoint, source,
}
use kilo_clustermesh_operato.Validation.Node.{
  NodeSkipReason, some_network, validate_pod_cidr, validate_wireguard_ip, validate_public_key,
  validate_endpoint, ◌or_else◌, validate_node,
}

-- An allowed network that parses passes the test.
abbrev pub SomeNetwork : (IpNet → Bool) → List Text → Type 0
SomeNetwork p raws =
    (raw : Text) × (net : IpNet) × In raw raws × (parse_cidr raw ≡ some net) × (p net ≡ true)

some_network_iff :
    (p : IpNet → Bool) (raws : List Text) → (some_network p raws ≡ true) ↔ SomeNetwork p raws
unfolding some_network
some_network_iff p [] = (λ e. cc, λ (raw, net, i, parsed, passes). absurd i)
some_network_iff p (s ∷ ss) =
    let (to, from) = some_network_iff p ss in
    elim (Option-cases (parse_cidr s)) [
      | inl h ↦
          rw (h, some_network)
            (
              λ e. let (raw, net, i, parsed, passes) = to e in (raw, net, inr i, parsed, passes),
              λ (raw, net, i, parsed, passes). elim i [
                | inl same ↦ cc (ap parse_cidr same)
                | inr j ↦ from (raw, net, j, parsed, passes)
              ],
            )
      | inr (n, h) ↦ elim (Bool-cases (p n)) [
        | inl yes_ ↦ rw (h, yes_, some_network) (λ e. (s, n, inl refl, h, yes_), λ r. refl)
        | inr no_ ↦
            rw (h, no_, some_network)
              (
                λ e. let (raw, net, i, parsed, passes) = to e in (raw, net, inr i, parsed, passes),
                λ (raw, net, i, parsed, passes). elim i [
                  | inl same ↦ cc (ap parse_cidr same)
                  | inr j ↦ from (raw, net, j, parsed, passes)
                ],
              )
      ]
    ]

-- The first pod CIDR parses and lies in an allowed network, as `CIDRContains` sees it.
abbrev pub HasPodCidr : List Text → ClusterEntry → Type 0
HasPodCidr [] entry = ⊥
HasPodCidr (s ∷ ss) entry =
    (net : IpNet) × (parse_cidr s ≡ some net)
    × SomeNetwork (λ n. cidr_contains n net) entry.allowed_networks

-- The WireGuard address parses and lies in an allowed network.
abbrev pub HasWireguardIp : Node → ClusterEntry → Type 0
HasWireguardIp node entry =
    (wg_ip : Text) × (host : Ip × IpNet) × (source annotation_wireguard_ip node ≡ some wg_ip)
    × (parse_host_in_cidr wg_ip ≡ some host)
    × SomeNetwork (λ n. contains n host.0) entry.allowed_networks

pod_cidr_iff :
    (ss : List Text) (entry : ClusterEntry)
    → (validate_pod_cidr ss entry ≡ none) ↔ HasPodCidr ss entry
unfolding validate_pod_cidr
pod_cidr_iff [] entry = (λ e. cc, λ v. absurd v)
pod_cidr_iff (s ∷ ss) entry = elim (Option-cases (parse_cidr s)) [
  | inl h ↦ rw (h, validate_pod_cidr) (λ e. cc, λ (net, p, r). cc)
  | inr (net, h) ↦
      let (to, from) = some_network_iff (λ n. cidr_contains n net) entry.allowed_networks in
      elim (Bool-cases (some_network (λ n. cidr_contains n net) entry.allowed_networks)) [
        | inl yes_ ↦ rw (h, yes_, validate_pod_cidr) (λ e. (net, refl, to yes_), λ v. refl)
        | inr no_ ↦
            rw (h, no_, validate_pod_cidr)
              (
                λ e. cc,
                λ (net', p, r). cc (
                  from (
                      subst (λ x. SomeNetwork (λ n. cidr_contains n x) entry.allowed_networks)
                        (sym (some-eq-some net net' p)) r),
                  no_,
                ),
              )
      ]
]

wireguard_ip_iff :
    (node : Node) (entry : ClusterEntry)
    → (validate_wireguard_ip node entry ≡ none) ↔ HasWireguardIp node entry
unfolding validate_wireguard_ip
wireguard_ip_iff node entry = elim (Option-cases (source annotation_wireguard_ip node)) [
  | inl h ↦ rw (h, validate_wireguard_ip) (λ e. cc, λ (w, v, a, p, r). cc)
  | inr (wg_ip, h) ↦ elim (Option-cases (parse_host_in_cidr wg_ip)) [
    | inl k ↦
        rw (h, k, validate_wireguard_ip)
          (λ e. cc, λ (w, v, a, p, r). cc (ap parse_host_in_cidr (some-eq-some wg_ip w a), k, p))
    | inr (host, k) ↦
        let (to, from) = some_network_iff (λ n. contains n host.0) entry.allowed_networks in
        elim (Bool-cases (some_network (λ n. contains n host.0) entry.allowed_networks)) [
          | inl yes_ ↦
              rw (h, k, yes_, validate_wireguard_ip)
                (λ e. (wg_ip, host, refl, k, to yes_), λ v. refl)
          | inr no_ ↦
              rw (h, k, no_, validate_wireguard_ip)
                (
                  λ e. cc,
                  λ (w, v, a, p, r). cc (
                    from (
                        subst (λ x. SomeNetwork (λ n. contains n x.0) entry.allowed_networks)
                          (sym (
                            some-eq-some host v
                              (sym k ∙ ap parse_host_in_cidr (some-eq-some wg_ip w a) ∙ p)))
                          r),
                    no_,
                  ),
                )
        ]
  ]
]

public_key_iff :
    (node : Node)
    → (validate_public_key node ≡ none)
      ↔ ((key : Text) × (source annotation_public_key node ≡ some key))
unfolding validate_public_key
public_key_iff node = elim (Option-cases (source annotation_public_key node)) [
  | inl h ↦ rw (h, validate_public_key) (λ e. cc, λ (key, p). cc)
  | inr (key, h) ↦ rw (h, validate_public_key) (λ e. (key, refl), λ v. refl)
]

endpoint_iff :
    (node : Node) (entry : ClusterEntry)
    → (validate_endpoint node entry ≡ none)
      ↔ ((found : Option Text) × (resolve_endpoint node entry.wireguard_port ≡ ok found))
unfolding validate_endpoint
endpoint_iff node entry = elim (Result-cases (resolve_endpoint node entry.wireguard_port)) [
  | inl (found, h) ↦ rw (h, validate_endpoint) (λ e. (found, refl), λ v. refl)
  | inr (x, h) ↦ rw (h, validate_endpoint) (λ e. cc, λ (found, p). cc)
]

or_else_iff : (a b : Option NodeSkipReason) → ((a or_else b) ≡ none) ↔ ((a ≡ none) × (b ≡ none))
or_else_iff none b = (λ e. (refl, e), λ (p, q). q)
or_else_iff (some r) b = (λ e. cc, λ (p, q). cc)

-- `ValidateNode` accepts a node exactly when its first pod CIDR parses and is contained in an allowed
-- network, its WireGuard address parses and is in an allowed network, it has a public key, and the
-- resolution of its endpoint has no error; an endpoint need not be found.
pub validate_node_iff :
    (node : Node) (entry : ClusterEntry)
    → (validate_node node entry ≡ none) ↔ (
        HasPodCidr node.pod_cidrs entry
        × HasWireguardIp node entry
        × ((key : Text) × (source annotation_public_key node ≡ some key))
        × ((found : Option Text) × (resolve_endpoint node entry.wireguard_port ≡ ok found)))
unfolding validate_node
validate_node_iff node entry =
    let (to1, from1) = or_else_iff (validate_pod_cidr node.pod_cidrs entry) _ in
    let (to2, from2) = or_else_iff (validate_wireguard_ip node entry) _ in
    let (to3, from3) = or_else_iff (validate_public_key node) (validate_endpoint node entry) in
    (
      λ e.
          let (pod, e1) = to1 e in
          let (wg, e2) = to2 e1 in
          let (key, endpoint) = to3 e2 in
          (
            (pod_cidr_iff node.pod_cidrs entry).0 pod,
            (wireguard_ip_iff node entry).0 wg,
            (public_key_iff node).0 key,
            (endpoint_iff node entry).0 endpoint,
          ),
      λ v. from1 (
        (pod_cidr_iff node.pod_cidrs entry).1 v.0,
        from2 (
          (wireguard_ip_iff node entry).1 v.1,
          from3 ((public_key_iff node).1 v.2, (endpoint_iff node entry).1 v.3),
        ),
      ),
    )
