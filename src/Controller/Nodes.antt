-- ===== src/Controller/Nodes.antt =====
-- `filterNodes` of internal/controller/clustermesh_controller.go.
pub mod Counts
pub mod Keys
use kilo_clustermesh_operato.Base.{
  ℕ, suc, Bool, true, false, Option, none, some, List, [], ◌∷◌, if◌then◌else◌, Text, str_eq, any,
}
use kilo_clustermesh_operato.Api.{Node, ClusterEntry}
use kilo_clustermesh_operato.Validation.Node.{validate_node, is_transient, find_duplicate_wgips}

-- The three results of `filterNodes`.
pub record Filtered : Type 0 where
  pub valid : List Node
  pub skipped : ℕ
  pub transient_skipped : ℕ

-- A node that is skipped, and whether the reason is transient.
unfoldable pub skip : Bool → Filtered → Filtered
skip transient rest = record {
  valid = rest.valid;
  skipped = suc rest.skipped;
  transient_skipped = if transient then suc rest.transient_skipped else rest.transient_skipped;
}

-- The loop of `filterNodes`, behind the duplicates.
unfoldable pub filter_from : List Text → ClusterEntry → List Node → Filtered
unfolding skip
filter_from duplicates entry [] = record { valid = []; skipped = 0; transient_skipped = 0 }
filter_from duplicates entry (node ∷ nodes) =
    let rest = filter_from duplicates entry nodes in
    if any (str_eq node.name) duplicates then skip false rest else elim (validate_node node entry) [
      | some reason ↦ skip (is_transient reason) rest
      | none ↦ record rest { valid = node ∷ rest.valid }
    ]

-- `filterNodes`
unfoldable pub filter_nodes : List Node → ClusterEntry → Filtered
unfolding filter_from
filter_nodes nodes entry = filter_from (find_duplicate_wgips nodes) entry nodes
