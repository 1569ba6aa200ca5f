-- ===== src/Workflow/Validation.antt =====
-- `validate_definition` (app/workflows/engine/validation.py). Every refusal raises the same
-- exception, a ValueError; its messages are left out. The type of a node is a NodeType here, so that
-- the test of the types cannot fail.
use ai_platform_mini.Prelude.{
  ℕ, zero, suc, String, Bool, true, false, not, ◌&&◌, Option, none, some, List, [], ◌∷◌, ◌++◌, Text,
  codes, text_eq, skip_space, length, keep, any, member, str_eq, ltb, leb, ◌==◌, is_some,
  if◌then◌else◌,
}
use ai_platform_mini.Prelude.Results.{
  Result, ok, raised, value_error, key_error, ◌>>=◌, ◌>>◌, require, for_each,
}
use ai_platform_mini.Workflow.Graph.{
  Branch, WorkflowNode, WorkflowEdge, WorkflowDefinition, is_condition, is_input, is_output,
  node_ids, arcs,
}
use ai_platform_mini.Workflow.Order.{targets, topological_order}
use ai_platform_mini.Workflow.Conditions.{
  after, span, is_id, non_empty, match_variable, match_form, ◌>>=◌ as ◌>>=?◌,
}

-- `_NODE_REFERENCE_RE`, at the beginning of a text: the node's id, and what follows.
unfoldable pub match_reference : Text → Option (Text × Text)
unfolding after span is_id skip_space
match_reference s = after (codes "{{") s >>=? λ t.
    non_empty (span is_id (skip_space t)) >>=? λ (name, rest).
    after (codes ".output") rest >>=? λ u.
    after (codes "}}") (skip_space u) >>=? λ v. some (name, v)

-- `_NODE_REFERENCE_RE.findall`, with fuel for the length of the text.
unfoldable pub references_from : ℕ → Text → List Text
unfolding match_reference
references_from zero s = []
references_from (suc fuel) [] = []
references_from (suc fuel) (c ∷ s) = elim (match_reference (c ∷ s)) [
  | none ↦ references_from fuel s
  | some (name, rest) ↦ name ∷ references_from fuel rest
]

-- `_walk_strings(node.config)`
abbrev pub branch_texts : List Branch → List Text
branch_texts [] = []
branch_texts (b ∷ bs) =
    elim b.condition [ none ↦ [] | some c ↦ c ∷ [] ] ++ codes b.target ∷ branch_texts bs

abbrev pub config_texts : WorkflowNode → List Text
config_texts n =
    branch_texts n.branches ++ elim n.output_template [ none ↦ [] | some t ↦ t ∷ [] ] ++ n.texts

-- `index_of[reference]`
unfoldable pub index_of : Text → List String → Option ℕ
unfolding text_eq
index_of name [] = none
index_of name (id ∷ ids) =
    let rest = index_of name ids in
    if text_eq (codes id) name then some 0 else rest >>=? λ i. some (suc i)

abbrev pub found {ℓ} : {A : Type ℓ} → Option A → Result A
found none = raised key_error
found (some a) = ok a

unfoldable pub validate_reference : List String → WorkflowNode → Text → Result (Unit {0})
unfolding index_of
validate_reference order n name = do
  require (not (text_eq name (codes n.id))) value_error
  require (is_some (index_of name order)) value_error
  i ← found (index_of name order)
  j ← found (index_of (codes n.id) order)
  require (ltb i j) value_error

unfoldable pub validate_template_references : List String → WorkflowNode → Result (Unit {0})
unfolding validate_reference references_from
validate_template_references order n =
    for_each (λ text. for_each (validate_reference order n) (references_from (length text) text))
      (config_texts n)

unfoldable pub is_valid_condition : Text → Bool
unfolding match_variable match_form
is_valid_condition expr = is_some (match_variable expr >>=? λ (name, rest). match_form rest)

unfoldable pub validate_branches : List String → Bool → List Branch → Result (Unit {0})
unfolding is_valid_condition
validate_branches ids default_seen [] = ok tt
validate_branches ids default_seen (b ∷ bs) = require (member b.target ids) value_error >>= λ _.
    elim b.condition [
      | none ↦ require (not default_seen) value_error >> validate_branches ids true bs
      | some c ↦ require (is_valid_condition c) value_error >> validate_branches ids default_seen bs
    ]

abbrev pub is_empty {ℓ} : {A : Type ℓ} → List A → Bool
is_empty [] = true
is_empty (_ ∷ _) = false

unfoldable pub validate_condition_node : List String → WorkflowNode → Result (Unit {0})
unfolding validate_branches
validate_condition_node ids n =
    require (not (is_empty n.branches)) value_error >> validate_branches ids false n.branches

abbrev pub distinct : List String → Bool
distinct [] = true
distinct (x ∷ xs) = not (member x xs) && distinct xs

unfoldable pub validate_edge : List String → WorkflowEdge → Result (Unit {0})
validate_edge ids e = do
  require (member e.from_node ids) value_error
  require (member e.to_node ids) value_error
  require (not (str_eq e.from_node e.to_node)) value_error

-- `incoming[node_id]`
abbrev pub incoming : String → List WorkflowEdge → List WorkflowEdge
incoming id as_ = keep (λ a. str_eq a.to_node id) as_

unfoldable pub validate_definition : WorkflowDefinition → Result (Unit {0})
unfolding validate_edge validate_condition_node validate_template_references
validate_definition d = do
  let ids = node_ids d.nodes
  require (distinct ids) value_error
  for_each (validate_edge ids) d.edges
  require (any (λ n. is_input n.type) d.nodes) value_error
  require (any (λ n. is_output n.type) d.nodes) value_error
  for_each (λ n. require (length (targets n.id d.edges) == 1) value_error)
      (keep (λ n. is_input n.type) d.nodes)
  for_each (λ n. require (leb (length (incoming n.id (arcs d))) 1) value_error) d.nodes
  require (is_some (topological_order d)) value_error
  order ← found (topological_order d)
  for_each (validate_condition_node ids) (keep (λ n. is_condition n.type) d.nodes)
  for_each (validate_template_references order) d.nodes
