-- ===== src/Peer/Builder/Covered.antt =====
-- internal/peer/builder.go: `nodeOwnInternalIPHostRoutes` and `networkCoveredByAnyNode` in terms of the
-- node's fields.
use kilo_clustermesh_operato.Base.{
  ◌≡◌, ◌↔◌, refl, sym, subst, ◌∙◌, ap, inl, inr, ◌⊎◌, Bool, true, false, ◌||◌, some, List, [], ◌∷◌,
  Text, any, In, Bool-cases, Option-cases, value_at, some-eq-some,
}
use kilo_clustermesh_operato.Api.{
  Node, NodeAddress, AddressType, hostname, internal_ip, external_ip, internal_dns, external_dns,
}
use kilo_clustermesh_operato.Netutil.{parse_cidr, parse_host_in_cidr, cidr_contains, host_route}
use kilo_clustermesh_operato.Go.Net.Address.{to4, Ip, IpNet, contains}
use kilo_clustermesh_operato.Base.{Option, none, codes, ◌++◌}
use kilo_clustermesh_operato.Go.Net.Format.{ip_string}
use kilo_clustermesh_operato.Go.Net.Parse.{parse_ip}
use kilo_clustermesh_operato.Kilonode.{annotation_wireguard_ip}
use kilo_clustermesh_operato.Peer.Builder.{
  is_internal_ip, own_host_routes, address_in, wireguard_ip_in, pod_cidr_in, node_covers_network,
  network_covered_by_any_node,
}

-- An internal address of the list that parses to the IP.
abbrev pub HasInternalIp : List NodeAddress → Ip → Type 0
HasInternalIp addresses ip =
    (a : NodeAddress) × In a addresses × (a.kind ≡ internal_ip) × (parse_ip a.address ≡ some ip)

-- The node's first pod CIDR lies in the network, or one of its internal addresses does, or its
-- WireGuard address does.
abbrev pub Covers : IpNet → Node → Type 0
Covers network n =
    ((s : Text) × (rest : List Text) × (c : IpNet) × (n.pod_cidrs ≡ s ∷ rest)
      × (parse_cidr s ≡ some c)
      × (cidr_contains network c ≡ true))
    ⊎ ((ip : Ip) × HasInternalIp n.addresses ip × (contains network ip ≡ true))
    ⊎ ((host : Ip × IpNet) × (parse_host_in_cidr (value_at annotation_wireguard_ip n.annotations)
          ≡ some host)
        × (contains network host.0 ≡ true))

-- The text is the IP with the prefix length of one address: 32 for IPv4 and 128 for IPv6.
abbrev pub IsHostRoute : Ip → Text → Type 0
IsHostRoute ip x =
    ((v4 : Ip) × (to4 ip ≡ some v4) × (x ≡ ip_string ip ++ codes "/32"))
    ⊎ ((to4 ip ≡ none) × (x ≡ ip_string ip ++ codes "/128"))

pub host_route_iff : (ip : Ip) (x : Text) → (x ≡ host_route ip) ↔ IsHostRoute ip x
unfolding host_route to4 ip_string
host_route_iff ip x =
    let route : Option Ip → Text =
      λ o. elim o [ some v4 ↦ ip_string ip ++ codes "/32" | none ↦ ip_string ip ++ codes "/128" ] in
    elim (Option-cases (to4 ip)) [
      | inl h ↦ (
        λ e. inr (h, e ∙ ap route h),
        λ v. elim v [ inl (v4, k, e) ↦ cc | inr (k, e) ↦ e ∙ sym (ap route h) ],
      )
      | inr (v4, h) ↦ (
        λ e. inl (v4, h, e ∙ ap route h),
        λ v. elim v [ inl (u4, k, e) ↦ e ∙ sym (ap route h) | inr (k, e) ↦ cc ],
      )
    ]

kind-internal : (k : AddressType) → (is_internal_ip k ≡ true) ↔ (k ≡ internal_ip)
kind-internal internal_ip = (λ e. refl, λ e. refl)
kind-internal hostname = (λ e. cc, λ e. cc)
kind-internal external_ip = (λ e. cc, λ e. cc)
kind-internal internal_dns = (λ e. cc, λ e. cc)
kind-internal external_dns = (λ e. cc, λ e. cc)

any_iff :
    {A : Type 0} (f : A → Bool) (xs : List A)
    → (any f xs ≡ true) ↔ ((a : A) × In a xs × (f a ≡ true))
any_iff f [] = (λ e. cc, λ (a, i, e). absurd i)
any_iff f (x ∷ xs) =
    let (to, from) = any_iff f xs in
    elim (Bool-cases (f x)) [
      | inl hit ↦ (λ e. (x, inl refl, hit), λ e. rw hit refl)
      | inr miss ↦ rw miss (
        λ e. let (a, i, h) = to e in (a, inr i, h),
        λ (a, i, h). elim i [ inl same ↦ cc (ap f same) | inr j ↦ from (a, j, h) ],
      )
    ]

-- The host routes are those of the internal addresses.
pub own_host_routes_iff :
    (x : Text) (addresses : List NodeAddress)
    → In x (own_host_routes addresses)
      ↔ ((ip : Ip) × HasInternalIp addresses ip × (x ≡ host_route ip))
unfolding own_host_routes
own_host_routes_iff x [] = (λ i. absurd i, λ (ip, (a, i, k, h), e). absurd i)
own_host_routes_iff x (a ∷ addrs) =
    let (to, from) = own_host_routes_iff x addrs in
    let (internal, kind) = kind-internal a.kind in
    let later : In x (own_host_routes addrs)
        → (ip : Ip) × HasInternalIp (a ∷ addrs) ip × (x ≡ host_route ip) =
      λ i. let (ip, (b, j, k, h), e) = to i in (ip, (b, inr j, k, h), e) in
    elim (Bool-cases (is_internal_ip a.kind)) [
      | inr other ↦
          rw (other, own_host_routes)
            (
              later,
              λ (ip, (b, i, k, h), e). elim i [
                | inl same ↦ cc (kind (ap (λ c. c.kind) (sym same) ∙ k), other)
                | inr j ↦ from (ip, (b, j, k, h), e)
              ],
            )
      | inl own ↦ elim (Option-cases (parse_ip a.address)) [
        | inl bad ↦
            rw (own, bad, own_host_routes)
              (
                later,
                λ (ip, (b, i, k, h), e). elim i [
                  | inl same ↦ cc (ap (λ c. parse_ip c.address) same, bad, h)
                  | inr j ↦ from (ip, (b, j, k, h), e)
                ],
              )
        | inr (ip', good) ↦
            rw (own, good, own_host_routes)
              (
                λ i. elim i [
                  | inl same ↦ (ip', (a, inl refl, internal own, good), same)
                  | inr j ↦ later j
                ],
                λ (ip, (b, i, k, h), e). elim i [
                  | inl same ↦ inl (
                      e
                      ∙ ap host_route
                          (some-eq-some ip ip' (sym h ∙ ap (λ c. parse_ip c.address) same ∙ good)))
                  | inr j ↦ inr (from (ip, (b, j, k, h), e))
                ],
              )
      ]
    ]

pod_cidr_in_iff :
    (network : IpNet) (cidrs : List Text)
    → (pod_cidr_in network cidrs ≡ true) ↔ (
        (s : Text) × (rest : List Text) × (c : IpNet) × (cidrs ≡ s ∷ rest)
        × (parse_cidr s ≡ some c)
        × (cidr_contains network c ≡ true))
unfolding pod_cidr_in
pod_cidr_in_iff network [] = (λ e. cc, λ (s, rest, c, same, h, e). cc)
pod_cidr_in_iff network (s' ∷ ss) = elim (Option-cases (parse_cidr s')) [
  | inl bad ↦ rw (bad, pod_cidr_in) (λ e. cc, λ (s, rest, c, same, h, e). cc)
  | inr (c', good) ↦
      rw (good, pod_cidr_in) (λ e. (s', ss, c', refl, good, e), λ (s, rest, c, same, h, e). cc)
]

address_in_iff :
    (network : IpNet) (a : NodeAddress)
    → (address_in network a ≡ true) ↔ (
        (ip : Ip) × (a.kind ≡ internal_ip)
        × (parse_ip a.address ≡ some ip)
        × (contains network ip ≡ true))
unfolding address_in
address_in_iff network a =
    let (internal, kind) = kind-internal a.kind in
    elim (Bool-cases (is_internal_ip a.kind)) [
      | inr other ↦ rw (other, address_in) (λ e. cc, λ (ip, k, h, e). cc (kind k, other))
      | inl own ↦ elim (Option-cases (parse_ip a.address)) [
        | inl bad ↦ rw (own, bad, address_in) (λ e. cc, λ (ip, k, h, e). cc)
        | inr (ip', good) ↦
            rw (own, good, address_in) (λ e. (ip', internal own, refl, e), λ (ip, k, h, e). cc)
      ]
    ]

wireguard_ip_in_iff :
    (network : IpNet) (t : Text)
    → (wireguard_ip_in network t ≡ true) ↔ (
        (host : Ip × IpNet) × (parse_host_in_cidr t ≡ some host) × (contains network host.0 ≡ true))
unfolding wireguard_ip_in parse_host_in_cidr
wireguard_ip_in_iff network [] = (λ e. cc, λ (host, h, e). cc)
wireguard_ip_in_iff network (b ∷ bs) = elim (Option-cases (parse_host_in_cidr (b ∷ bs))) [
  | inl bad ↦ rw (bad, wireguard_ip_in) (λ e. cc, λ (host, h, e). cc)
  | inr ((ip, net), good) ↦
      rw (good, wireguard_ip_in)
        (
          λ e. ((ip, net), refl, e),
          λ (host, h, e). subst (λ r. contains network r.0 ≡ true) (sym (some-eq-some _ _ h)) e,
        )
]

or-cases : (a b : Bool) → a || b ≡ true → (a ≡ true) ⊎ (b ≡ true)
or-cases true b e = inl refl
or-cases false b e = inr e

or-left : (a b : Bool) → a ≡ true → a || b ≡ true
or-left true b e = refl
or-left false b e = cc

or-right : (a b : Bool) → b ≡ true → a || b ≡ true
or-right true b e = refl
or-right false b e = e

module _ (network : IpNet) where
  node_covers_network_iff : (n : Node) → (node_covers_network network n ≡ true) ↔ Covers network n
  unfolding node_covers_network
  node_covers_network_iff n =
      let wg = value_at annotation_wireguard_ip n.annotations in
      let pod = pod_cidr_in network n.pod_cidrs in
      let addr = any (address_in network) n.addresses in
      let last = wireguard_ip_in network wg in
      let (pod_to, pod_from) = pod_cidr_in_iff network n.pod_cidrs in
      let (any_to, any_from) = any_iff (address_in network) n.addresses in
      let (wg_to, wg_from) = wireguard_ip_in_iff network wg in
      (
        λ e. elim (or-cases (pod || addr) last e) [
          | inr k ↦ inr (inr (wg_to k))
          | inl h ↦ elim (or-cases pod addr h) [
            | inl k ↦ inl (pod_to k)
            | inr k ↦
                let (a, i, inside) = any_to k in
                let (ip, kind, parsed, c) = (address_in_iff network a).0 inside in
                inr (inl (ip, (a, i, kind, parsed), c))
          ]
        ],
        λ v. elim v [
          | inl h ↦ or-left (pod || addr) last (or-left pod addr (pod_from h))
          | inr (inl (ip, (a, i, kind, parsed), c)) ↦ or-left (pod || addr) last (
              or-right pod addr
                (any_from (a, i, (address_in_iff network a).1 (ip, kind, parsed, c))))
          | inr (inr h) ↦ or-right (pod || addr) last (wg_from h)
        ],
      )

  pub uncovered_iff :
      (nodes : List Node)
      → (network_covered_by_any_node network nodes ≡ false)
        ↔ ((n : Node) → In n nodes → Covers network n → ⊥)
  unfolding network_covered_by_any_node
  uncovered_iff nodes =
      let (to, from) = any_iff (node_covers_network network) nodes in
      (
        λ e n i v. cc (from (n, i, (node_covers_network_iff n).1 v), e),
        λ none_covers. elim (Bool-cases (any (node_covers_network network) nodes)) [
          | inr e ↦ e
          | inl e ↦
              let (n, i, h) = to e in absurd (none_covers n i ((node_covers_network_iff n).0 h))
        ],
      )
