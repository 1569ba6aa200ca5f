-- ===== src/Workflow/Tests.antt =====
-- A graph with a condition, and one with a cycle.
use ai_platform_mini.Prelude.{
  true, Text, text_eq, is_space, skip_space, all, ◌≡◌, refl, String, none, some, List, [], ◌∷◌,
  codes, member, Distinct,
}
use ai_platform_mini.Prelude.Dict.{get, put}
use ai_platform_mini.Workflow.Graph.{
  NodeType, Branch, WorkflowNode, WorkflowEdge, WorkflowDefinition, node_ids, arcs,
}
use ai_platform_mini.Workflow.Order.{topological_order, ordered_ids, kahn, relax, count_arcs}
use ai_platform_mini.Workflow.Kahn.{Ordered}
use ai_platform_mini.Prelude.Results.{ok, raised, value_error}
use ai_platform_mini.Workflow.Conditions.{
  Variables, lookup, render_template, render_from, match_variable, after, span, is_id, is_word,
  evaluate_condition, occurs_in,
}
use ai_platform_mini.Workflow.Printed.{
  print_contains, print_equals, print_is_empty, evaluate_condition-print,
}
use ai_platform_mini.Workflow.Sorted.{topological_order_lem, Stuck}

abbrev node : String → NodeType → List Branch → WorkflowNode
node id type branches = record {
  id = id;
  type = type;
  branches = branches;
  output_template = some [];
  texts = [];
}

abbrev edge : String → String → WorkflowEdge
edge a b = record { from_node = a; to_node = b }

-- "in" leads to the condition "if", which selects "yes" or "no"; "yes" leads to "out".
abbrev graph : WorkflowDefinition
graph = record {
  nodes =
      node "out" NodeType.output []
      ∷ node "in" NodeType.input []
      ∷ node "if" NodeType.condition (
          record { condition = some (codes "{{input.q}} is empty"); target = "no" }
          ∷ record { condition = none; target = "yes" }
          ∷ [])
      ∷ node "yes" NodeType.llm []
      ∷ node "no" NodeType.output []
      ∷ [];
  edges = edge "in" "if" ∷ edge "yes" "out" ∷ [];
}

order_of_graph : topological_order graph ≡ some ("in" ∷ "if" ∷ "no" ∷ "yes" ∷ "out" ∷ [])
unfolding topological_order ordered_ids kahn relax count_arcs arcs get put
order_of_graph = refl

abbrev cycle : WorkflowDefinition
cycle = record {
  nodes = node "a" NodeType.input [] ∷ node "b" NodeType.llm [] ∷ node "c" NodeType.llm [] ∷ [];
  edges = edge "a" "b" ∷ edge "b" "c" ∷ edge "c" "b" ∷ [];
}

no_order_of_cycle : topological_order cycle ≡ none
unfolding topological_order ordered_ids kahn relax count_arcs arcs get put
no_order_of_cycle = refl

topological_order_lem_example :
    ((ordered : List String)
      → topological_order graph ≡ some ordered
      → Distinct ordered
        × ((v : String) → member v ordered ≡ member v (node_ids graph.nodes))
        × Ordered (arcs graph) [] ordered)
    × (topological_order graph ≡ none → (ids : List String) × Stuck graph ids)
topological_order_lem_example =
    topological_order_lem graph (refl, (refl, (refl, (refl, (refl, tt))))) refl

abbrev variables : Variables
variables = (codes "q", some (codes "hello")) ∷ []

abbrev q : Text
q = codes "q"

finds_q : lookup q variables ≡ some (some (codes "hello"))
unfolding lookup text_eq
finds_q = refl

renders : render_template (codes "say {{ q }}!") variables ≡ ok (codes "say hello!")
unfolding render_template render_from match_variable after span is_id is_word is_space skip_space
    lookup text_eq
renders = refl

undefined_variable_raises : render_template (codes "{{x}}") variables ≡ raised value_error
unfolding render_template render_from match_variable after span is_id is_word is_space skip_space
    lookup text_eq
undefined_variable_raises = refl

letters : all is_id q ≡ true
unfolding is_id is_word
letters = refl

evaluate_condition-print_example :
    (evaluate_condition (print_contains q (codes "ell")) variables
      ≡ ok (occurs_in (codes "ell") (codes "hello")))
    × (evaluate_condition (print_equals q (codes "ell")) variables
        ≡ ok (text_eq (codes "hello") (codes "ell")))
    × (evaluate_condition (print_is_empty q) variables ≡ ok (text_eq (codes "hello") []))
evaluate_condition-print_example =
    evaluate_condition-print 113 [] (codes "ell") variables (some (codes "hello")) letters refl
      finds_q
