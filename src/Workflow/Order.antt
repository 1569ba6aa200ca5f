-- ===== src/Workflow/Order.antt =====
-- `topological_order` (app/workflows/engine/validation.py), Kahn's algorithm. The ends of the arcs
-- are nodes, as `validate_definition` has checked; a missing key of a dict reads as 0.
use ai_platform_mini.Prelude.{
  ℕ, zero, suc, ◌+◌, ◌-◌, String, Option, none, some, List, [], ◌∷◌, ◌++◌, length, keep, str_eq,
  ◌==◌, if◌then◌else◌,
}
use ai_platform_mini.Prelude.Dict.{Dict, get, put}
use ai_platform_mini.Workflow.Graph.{WorkflowDefinition, WorkflowEdge, node_ids, arcs}

-- `in_degree[id]`
abbrev pub value_or_zero : Option ℕ → ℕ
value_or_zero none = 0
value_or_zero (some n) = n

abbrev pub degree : Dict ℕ → String → ℕ
degree in_degree id = value_or_zero (get id in_degree)

-- `adjacency[id]`
abbrev pub targets : String → List WorkflowEdge → List String
targets id [] = []
targets id (a ∷ as_) =
    let rest = targets id as_ in if str_eq a.from_node id then a.to_node ∷ rest else rest

-- `in_degree[target] += 1`, for each arc
unfoldable pub count_arcs : List WorkflowEdge → Dict ℕ → Dict ℕ
count_arcs [] in_degree = in_degree
count_arcs (a ∷ as_) in_degree =
    count_arcs as_ (put a.to_node (degree in_degree a.to_node + 1) in_degree)

abbrev pub zeros : List String → Dict ℕ
zeros [] = []
zeros (id ∷ ids) = (id, 0) ∷ zeros ids

-- `for target in adjacency[node_id]`
unfoldable pub relax : List String → List String → Dict ℕ → List String × Dict ℕ
relax [] ready in_degree = (ready, in_degree)
relax (t ∷ ts) ready in_degree =
    let n = degree in_degree t - 1 in
    relax ts (if n == 0 then ready ++ t ∷ [] else ready) (put t n in_degree)

-- `while ready`
unfoldable pub kahn : List WorkflowEdge → ℕ → List String → List String → Dict ℕ → List String
unfolding relax
kahn as_ zero ready ordered in_degree = ordered
kahn as_ (suc fuel) [] ordered in_degree = ordered
kahn as_ (suc fuel) (id ∷ ready) ordered in_degree =
    let (ready', in_degree') = relax (targets id as_) ready in_degree in
    kahn as_ fuel ready' (ordered ++ id ∷ []) in_degree'

-- The order before the test of its length. No more rounds are made than there are nodes.
unfoldable pub ordered_ids : List String → List WorkflowEdge → List String
unfolding count_arcs kahn
ordered_ids ids as_ =
    let in_degree = count_arcs as_ (zeros ids) in
    kahn as_ (length ids) (keep (λ id. degree in_degree id == 0) ids) [] in_degree

unfoldable pub topological_order : WorkflowDefinition → Option (List String)
unfolding ordered_ids
topological_order d =
    let ordered = ordered_ids (node_ids d.nodes) (arcs d) in
    if length ordered == length d.nodes then some ordered else none
