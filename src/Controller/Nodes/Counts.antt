-- ===== src/Controller/Nodes/Counts.antt =====
-- `filterNodes` of internal/controller/clustermesh_controller.go: its three results together.
use kilo_clustermesh_operato.Base.{
  ◌+◌, ◌≤◌, ◌≡◌, refl, ◌↔◌, inl, inr, ◌⊎◌, sym, subst, Bool, false, none, List, [], ◌∷◌, Text,
  str_eq, any, length, In, arith, Bool-cases, Option-cases,
}
use kilo_clustermesh_operato.Api.{Node, ClusterEntry}
use kilo_clustermesh_operato.Validation.Node.{validate_node, is_transient, find_duplicate_wgips}
use kilo_clustermesh_operato.Controller.Nodes.{Filtered, skip, filter_from, filter_nodes}

-- What a node must have to stay.
abbrev pub Stays : List Text → ClusterEntry → Node → Type 0
Stays duplicates entry node =
    (any (str_eq node.name) duplicates ≡ false) × (validate_node node entry ≡ none)

-- A round keeps the node that stays and counts any other one.
pub filter-cases :
    (duplicates : List Text) (entry : ClusterEntry) (node : Node) (nodes : List Node)
    → let rest = filter_from duplicates entry nodes in
      ((filter_from duplicates entry (node ∷ nodes) ≡ record rest { valid = node ∷ rest.valid })
        × Stays duplicates entry node)
      ⊎ ((transient : Bool) × (filter_from duplicates entry (node ∷ nodes) ≡ skip transient rest)
          × (Stays duplicates entry node → ⊥))
unfolding filter_from
filter-cases duplicates entry node nodes = elim (Bool-cases (any (str_eq node.name) duplicates)) [
  | inl dup ↦ inr (false, rw dup refl, λ s. cc (s.0))
  | inr new ↦ elim (Option-cases (validate_node node entry)) [
    | inl accepted ↦ inl (rw (new, accepted) refl, (new, accepted))
    | inr (reason, h) ↦ inr (is_transient reason, rw (new, h) refl, λ s. cc (s.1))
  ]
]

-- What the three results say of the nodes.
abbrev pub Accounts : List Text → ClusterEntry → List Node → Filtered → Type 0
Accounts duplicates entry nodes f =
    (length f.valid + f.skipped ≡ length nodes)
    × (f.transient_skipped ≤ f.skipped)
    × ((n : Node) → In n f.valid ↔ (In n nodes × Stays duplicates entry n))

skip-Accounts :
    (duplicates : List Text) (entry : ClusterEntry) (node : Node) (nodes : List Node)
    (transient : Bool) (rest : Filtered)
    → (Stays duplicates entry node → ⊥)
    → Accounts duplicates entry nodes rest
    → Accounts duplicates entry (node ∷ nodes) (skip transient rest)
unfolding skip
skip-Accounts duplicates entry node nodes transient rest out (total, fewer, members) = (
  omega (arith, total),
  elim (Bool-cases transient) [
    | inl h ↦ rw h (omega (arith, fewer))
    | inr h ↦ rw h (omega (arith, fewer))
  ],
  λ n. (
    λ i. let (j, s) = (members n).0 i in (inr j, s),
    λ (i, s). elim i [
      | inl same ↦ absurd (out (subst (Stays duplicates entry) same s))
      | inr j ↦ (members n).1 (j, s)
    ],
  ),
)

filter_from-Accounts :
    (duplicates : List Text) (entry : ClusterEntry) (nodes : List Node)
    → Accounts duplicates entry nodes (filter_from duplicates entry nodes)
unfolding filter_from
filter_from-Accounts duplicates entry [] =
    (refl, omega arith, λ n. (λ i. absurd i, λ (i, s). absurd i))
filter_from-Accounts duplicates entry (node ∷ nodes) =
    let (total, fewer, members) = filter_from-Accounts duplicates entry nodes in
    let rest = filter_from duplicates entry nodes in
    elim (filter-cases duplicates entry node nodes) [
      | inr (transient, e, out) ↦
          subst (Accounts duplicates entry (node ∷ nodes)) (sym e)
            (skip-Accounts duplicates entry node nodes transient rest out (total, fewer, members))
      | inl (e, stays) ↦ subst (Accounts duplicates entry (node ∷ nodes)) (sym e) (
        omega (arith, total),
        fewer,
        λ n. (
          λ i. elim i [
            | inl same ↦ (inl same, subst (Stays duplicates entry) (sym same) stays)
            | inr j ↦ let (k, s) = (members n).0 j in (inr k, s)
          ],
          λ (i, s). elim i [ inl same ↦ inl same | inr j ↦ inr ((members n).1 (j, s)) ],
        ),
      )
    ]

-- `filterNodes` accounts for every node: the valid and the skipped ones are as many as the nodes,
-- the transient skips are among the skips, and the valid nodes are exactly those whose name
-- `FindDuplicateWGIPs` does not report and that `ValidateNode` accepts.
pub filter_nodes-Accounts :
    (nodes : List Node) (entry : ClusterEntry)
    → Accounts (find_duplicate_wgips nodes) entry nodes (filter_nodes nodes entry)
unfolding filter_nodes
filter_nodes-Accounts nodes entry = filter_from-Accounts (find_duplicate_wgips nodes) entry nodes
