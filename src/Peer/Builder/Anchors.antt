-- ===== src/Peer/Builder/Anchors.antt =====
-- `CollectAnchorCIDRs` of internal/peer/builder.go: the networks that no node covers.
use kilo_clustermesh_operato.Base.{
  ◌≡◌, ◌↔◌, ◌∙◌, ap, inl, inr, ◌⊎◌, false, none, some, List, [], ◌∷◌, Text, In, Bool-cases,
  Option-cases,
}
use kilo_clustermesh_operato.Api.{Node, ClusterEntry}
use kilo_clustermesh_operato.Netutil.{parse_cidr}
use kilo_clustermesh_operato.Go.Net.Address.{IpNet}
use kilo_clustermesh_operato.Peer.Builder.Covered.{Covers, uncovered_iff}
use kilo_clustermesh_operato.Peer.Builder.{
  network_covered_by_any_node, residual, collect_anchor_cidrs,
}

-- The loop of `CollectAnchorCIDRs` keeps the network.
abbrev IsKept : List Node → Text → Type 0
IsKept nodes s =
    (parse_cidr s ≡ none)
    ⊎ ((network : IpNet) × (parse_cidr s ≡ some network)
        × (network_covered_by_any_node network nodes ≡ false))

-- The text is no network, or one that no node of the list covers.
abbrev pub IsUncovered : List Node → Text → Type 0
IsUncovered nodes s =
    (parse_cidr s ≡ none)
    ⊎ ((network : IpNet) × (parse_cidr s ≡ some network)
        × ((n : Node) → In n nodes → Covers network n → ⊥))

IsKept-IsUncovered : (nodes : List Node) (s : Text) → IsKept nodes s ↔ IsUncovered nodes s
IsKept-IsUncovered nodes s = (
  λ k. elim k [
    | inl bad ↦ inl bad
    | inr (network, h, e) ↦ inr (network, h, (uncovered_iff network nodes).0 e)
  ],
  λ u. elim u [
    | inl bad ↦ inl bad
    | inr (network, h, e) ↦ inr (network, h, (uncovered_iff network nodes).1 e)
  ],
)

residual_iff :
    (x : Text) (ss : List Text) (nodes : List Node)
    → In x (residual ss nodes) ↔ (In x ss × IsKept nodes x)
unfolding residual
residual_iff x [] nodes = (λ i. absurd i, λ (i, u). i)
residual_iff x (s ∷ ss) nodes =
    let (to, from) = residual_iff x ss nodes in
    elim (Option-cases (parse_cidr s)) [
      | inl h ↦
          rw (h, residual)
            (
              λ i. elim i [
                | inl same ↦ (inl same, inl (ap parse_cidr same ∙ h))
                | inr j ↦ let (k, u) = to j in (inr k, u)
              ],
              λ (i, u). elim i [ inl same ↦ inl same | inr j ↦ inr (from (j, u)) ],
            )
      | inr (network, h) ↦ elim (Bool-cases (network_covered_by_any_node network nodes)) [
        | inr open_ ↦
            rw (h, open_, residual)
              (
                λ i. elim i [
                  | inl same ↦ (inl same, inr (network, ap parse_cidr same ∙ h, open_))
                  | inr j ↦ let (k, u) = to j in (inr k, u)
                ],
                λ (i, u). elim i [ inl same ↦ inl same | inr j ↦ inr (from (j, u)) ],
              )
        | inl covered ↦
            rw (h, covered, residual)
              (
                λ i. let (k, u) = to i in (inr k, u),
                λ (i, u). elim i [
                  | inr j ↦ from (j, u)
                  | inl same ↦ elim u [
                    | inl bad ↦ cc (ap parse_cidr same)
                    | inr (network', h', open') ↦ cc (ap parse_cidr same)
                  ]
                ],
              )
      ]
    ]

-- `CollectAnchorCIDRs` keeps exactly the allowed networks of the entry that do not parse or that no
-- node of the list covers, neither by its first pod CIDR, nor by an internal address, nor by its
-- WireGuard address.
pub collect_anchor_cidrs_iff :
    (entry : ClusterEntry) (nodes : List Node) (x : Text)
    → In x (collect_anchor_cidrs entry nodes) ↔ (In x entry.allowed_networks × IsUncovered nodes x)
unfolding collect_anchor_cidrs
collect_anchor_cidrs_iff entry nodes x =
    let (to, from) = residual_iff x entry.allowed_networks nodes in
    let (uncovered, kept) = IsKept-IsUncovered nodes x in
    (λ i. let (here, k) = to i in (here, uncovered k), λ (here, u). from (here, kept u))
