-- ===== src/Peer/Builder/Routes.antt =====
-- The networks of a peer: `dedupeStrings` and `BuildPeer` of
-- internal/peer/builder.go.
use kilo_clustermesh_operato.Base.{
  ℕ, ◌≡◌, ◌≢◌, ◌↔◌, sym, subst, ap, inl, inr, ◌⊎◌, some, List, [], ◌∷◌, ◌++◌, Text, str_eq, any,
  any-str_eq_iff, In, AllPairs, arith, Bool-cases, Option-cases, value_at, In-append,
  In-append_left, In-append_right,
}
use kilo_clustermesh_operato.Base.Result.{ok, Result-cases, ok-eq-ok}
use kilo_clustermesh_operato.Base.{some-eq-some}
use kilo_clustermesh_operato.Api.{Node, ClusterEntry, Peer}
use kilo_clustermesh_operato.Netutil.{parse_host_in_cidr, host_route}
use kilo_clustermesh_operato.Go.Net.Address.{Ip, IpNet}
use kilo_clustermesh_operato.Kilonode.{annotation_wireguard_ip, annotation_public_key, is_empty}
use kilo_clustermesh_operato.Peer.Naming.{Platform}
use kilo_clustermesh_operato.Peer.Builder.Covered.{
  IsHostRoute, host_route_iff, HasInternalIp, own_host_routes_iff,
}
use kilo_clustermesh_operato.Peer.Builder.{
  dedupe_from, dedupe_strings, own_host_routes, head?, build_peer, resolve_peer_endpoint,
}

-- The loop drops what it has seen, and nothing else.
In-dedupe_from :
    (x : Text) (seen xs : List Text) → In x (dedupe_from seen xs) ↔ (In x xs × (In x seen → ⊥))
unfolding dedupe_from
In-dedupe_from x seen [] = (λ i. absurd i, λ (i, out). i)
In-dedupe_from x seen (y ∷ ys) = elim (Bool-cases (any (str_eq y) seen)) [
  | inl old ↦
      let (to, from) = In-dedupe_from x seen ys in
      rw old (
        λ i. let (j, out) = to i in (inr j, out),
        λ (i, out). elim i [
          | inl same ↦ absurd (out (rw same ((any-str_eq_iff y seen).0 old)))
          | inr j ↦ from (j, out)
        ],
      )
  | inr new ↦
      let (to, from) = In-dedupe_from x (y ∷ seen) ys in
      let fresh : In y seen → ⊥ = λ i. cc ((any-str_eq_iff y seen).1 i, new) in
      rw new (
        λ i. elim i [
          | inl same ↦ (inl same, λ k. fresh (subst (λ z. In z seen) same k))
          | inr j ↦ let (k, out) = to j in (inr k, λ m. out (inr m))
        ],
        λ (i, out). elim i [
          | inl same ↦ inl same
          | inr j ↦ elim (Bool-cases (str_eq x y)) [
            | inl h ↦ inl (ground (arith, any-str_eq_iff x (y ∷ [])))
            | inr h ↦ inr (
                from (
                  j,
                  λ m. elim m [
                    | inl same ↦ cc ((any-str_eq_iff x (y ∷ [])).1 (inl same), h)
                    | inr k ↦ out k
                  ],
                ))
          ]
        ],
      )
]

dedupe_from-distinct : (seen xs : List Text) → AllPairs (λ s t. s ≢ t) (dedupe_from seen xs)
unfolding dedupe_from
dedupe_from-distinct seen [] = tt
dedupe_from-distinct seen (y ∷ ys) = elim (Bool-cases (any (str_eq y) seen)) [
  | inl old ↦ rw old (dedupe_from-distinct seen ys)
  | inr new ↦ rw new (
    (λ t i same. ((In-dedupe_from t (y ∷ seen) ys).0 i).1 (inl (sym same))),
    dedupe_from-distinct (y ∷ seen) ys,
  )
]

-- `dedupeStrings` keeps exactly the texts of its argument, each once.
pub dedupe_strings-members :
    (xs : List Text)
    → ((x : Text) → In x (dedupe_strings xs) ↔ In x xs)
      × AllPairs (λ s t. s ≢ t) (dedupe_strings xs)
unfolding dedupe_strings
dedupe_strings-members xs = (
  λ x. let (to, from) = In-dedupe_from x [] xs in (λ i. (to i).0, λ i. from (i, λ k. absurd k)),
  dedupe_from-distinct [] xs,
)

head?-some : (ss : List Text) (s : Text) → head? ss ≡ some s → (rest : List Text) × (ss ≡ s ∷ rest)
head?-some [] s e = cc
head?-some (t ∷ ts) s e = (ts, ap (λ x. x ∷ ts) (some-eq-some t s e))

module _ (os : Platform) (mesh_name : Text) (entry : ClusterEntry) (node : Node)
    (extras : List Text) (keepalive : ℕ) where
  -- The pod CIDR, the host route of the WireGuard address, that of an internal address, or an extra.
  abbrev pub RouteOf : Text → Text → Ip → Type 0
  RouteOf x pod_cidr host =
      (x ≡ pod_cidr)
      ⊎ IsHostRoute host x
      ⊎ ((ip : Ip) × HasInternalIp node.addresses ip × IsHostRoute ip x)
      ⊎ In x extras

  In-RouteOf :
      (x pod_cidr : Text) (host : Ip)
      → In x (pod_cidr ∷ host_route host ∷ own_host_routes node.addresses ++ extras)
        ↔ RouteOf x pod_cidr host
  In-RouteOf x pod_cidr host =
      let own = own_host_routes node.addresses in
      let (to, from) = own_host_routes_iff x node.addresses in
      (
        λ i. elim i [
          | inl e ↦ inl e
          | inr (inl e) ↦ inr (inl ((host_route_iff host x).0 e))
          | inr (inr j) ↦ inr (
              inr (elim (In-append x own extras j) [
                | inl k ↦ let (ip, there, e) = to k in inl (ip, there, (host_route_iff ip x).0 e)
                | inr k ↦ inr k
              ]))
        ],
        λ v. elim v [
          | inl e ↦ inl e
          | inr (inl e) ↦ inr (inl ((host_route_iff host x).1 e))
          | inr (inr (inl (ip, there, e))) ↦
              inr (inr (In-append_left x own extras (from (ip, there, (host_route_iff ip x).1 e))))
          | inr (inr (inr k)) ↦ inr (inr (In-append_right x own extras k))
        ],
      )

  build_peer-routes :
      (p : Peer)
      → build_peer os mesh_name entry node extras keepalive ≡ ok p
      → (pod_cidr : Text) × (host : Ip × IpNet) × (head? node.pod_cidrs ≡ some pod_cidr)
        × (parse_host_in_cidr (value_at annotation_wireguard_ip node.annotations) ≡ some host)
        × (p.spec.allowed_ips
            ≡ dedupe_strings
                (pod_cidr ∷ host_route host.0 ∷ own_host_routes node.addresses ++ extras))
  unfolding build_peer
  build_peer-routes p e =
      elim (Bool-cases (is_empty (value_at annotation_public_key node.annotations))) [
        | inl h ↦ cc (rw (h, build_peer) at e)
        | inr key ↦
            elim (Bool-cases (is_empty (value_at annotation_wireguard_ip node.annotations))) [
              | inl h ↦ cc (rw (key, h, build_peer) at e)
              | inr wg ↦
                  elim (Option-cases
                    (parse_host_in_cidr (value_at annotation_wireguard_ip node.annotations))) [
                      | inl h ↦ cc (rw (key, wg, h, build_peer) at e)
                      | inr (host, parsed) ↦ elim (Option-cases (head? node.pod_cidrs)) [
                        | inl h ↦ cc (rw (key, wg, parsed, h, build_peer) at e)
                        | inr (pod_cidr, pods) ↦
                            elim (Result-cases (resolve_peer_endpoint node entry.wireguard_port)) [
                              | inr (x, h) ↦ cc (rw (key, wg, parsed, pods, h, build_peer) at e)
                              | inl (endpoint, h) ↦ (
                                pod_cidr,
                                host,
                                pods,
                                parsed,
                                ap (λ q. q.spec.allowed_ips)
                                    (sym (
                                      ok-eq-ok _ _
                                        (rw (key, wg, parsed, pods, h, build_peer) at e))),
                              )
                            ]
                      ]
                    ]
            ]
      ]

  -- The allowed IPs of a peer that `BuildPeer` returns are exactly the node's first pod CIDR, the
  -- host route of its WireGuard address, the host routes of its internal addresses that parse and the
  -- extra networks, each once; a host route has the prefix length 32 for IPv4 and 128 for IPv6.
  pub build_peer-allowed_ips :
      (p : Peer)
      → build_peer os mesh_name entry node extras keepalive ≡ ok p
      → (pod_cidr : Text) × (rest : List Text) × (host : Ip × IpNet) × (node.pod_cidrs
          ≡ pod_cidr ∷ rest)
        × (parse_host_in_cidr (value_at annotation_wireguard_ip node.annotations) ≡ some host)
        × ((x : Text) → In x p.spec.allowed_ips ↔ RouteOf x pod_cidr host.0)
        × AllPairs (λ s t. s ≢ t) p.spec.allowed_ips
  build_peer-allowed_ips p e =
      let (pod_cidr, host, pods, parsed, routes) = build_peer-routes p e in
      let (members, distinct) =
        dedupe_strings-members
          (pod_cidr ∷ host_route host.0 ∷ own_host_routes node.addresses ++ extras) in
      let all =
        subst
          (λ xs.
            ((x : Text)
              → In x xs
                ↔ In x (pod_cidr ∷ host_route host.0 ∷ own_host_routes node.addresses ++ extras))
            × AllPairs (λ s t. s ≢ t) xs)
          (sym routes) (members, distinct) in
      let (rest, first) = head?-some node.pod_cidrs pod_cidr pods in
      (
        pod_cidr,
        rest,
        host,
        first,
        parsed,
        λ x.
            let (to, from) = all.0 x in
            let (route, listed) = In-RouteOf x pod_cidr host.0 in
            (λ i. route (to i), λ v. from (listed v)),
        all.1,
      )
