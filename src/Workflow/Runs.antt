-- ===== src/Workflow/Runs.antt =====
-- What a run of the engine (app/workflows/engine/executor.py) of an accepted definition guarantees.
use ai_platform_mini.Prelude.{
  ◌≡◌, String, true, Option, none, some, List, [], ◌∷◌, Text, all, member, eq_iff, eq_refl, arith,
}
use ai_platform_mini.Prelude.Results.{ok}
use ai_platform_mini.Workflow.Graph.{NodeType, WorkflowEdge, WorkflowDefinition, node_ids, arcs}
use ai_platform_mini.Workflow.Order.{targets, topological_order}
use ai_platform_mini.Workflow.Sorted.{joins, arcs_join, topological_order_lem}
use ai_platform_mini.Workflow.Conditions.{Variables}
use ai_platform_mini.Workflow.Validation.{validate_definition}
use ai_platform_mini.Workflow.Validated.{validate_definition-Validated}
use ai_platform_mini.Workflow.Engine.{NodeExecutor, NodeResult, input_variables, start, run}
use ai_platform_mini.Workflow.Follows.{Ends, Nodes, run_nodes-Ends}

pub targets_are_nodes :
    (ids : List String) (as_ : List WorkflowEdge) (x y : String)
    → all (joins ids) as_ ≡ true
    → member y (targets x as_) ≡ true
    → member y ids ≡ true
targets_are_nodes ids [] x y j m = cc
targets_are_nodes ids (a ∷ as_) x y j m =
    ground (arith, j, m, targets_are_nodes ids as_ x y, eq_iff a.to_node y)

pub sources_are_nodes :
    (ids : List String) (as_ : List WorkflowEdge) (x y : String)
    → all (joins ids) as_ ≡ true
    → member y (targets x as_) ≡ true
    → member x ids ≡ true
sources_are_nodes ids [] x y j m = cc
sources_are_nodes ids (a ∷ as_) x y j m =
    ground (arith, j, m, sources_are_nodes ids as_ x y, eq_iff a.from_node x)

all_nodes :
    (d : WorkflowDefinition) (xs : List String)
    → ((x : String) → member x xs ≡ true → member x (node_ids d.nodes) ≡ true)
    → Nodes d xs
all_nodes d [] h = tt
all_nodes d (x ∷ xs) h =
    (h x (ground (arith, eq_refl x)), all_nodes d xs (λ y m. h y (ground (arith, m))))

-- The run of a definition that `validate_definition` accepts raises nothing. It goes through the
-- nodes in their topological order, each of them once. It skips those that the branches chosen so
-- far do not lead to, and executes each other one under the variables that the inputs and the
-- outputs of the nodes before it have set; the target of a condition is the one `_selected_target`
-- selects under them. It stops behind the first node whose execution raises, or answers with an
-- error: then it returns as FAILED with that error, and with no output. Only where a node's execution
-- is cancelled is the run cancelled. Else it returns as COMPLETED, with no error and with the output
-- of the last output node executed, if one was.
pub run_lem :
    (node_executors : NodeType → Option NodeExecutor) (dumps : Variables → Text)
    (d : WorkflowDefinition) (inputs : Variables)
    → validate_definition d ≡ ok tt
    → (order : List String) × (topological_order d ≡ some order)
      × Ends node_executors dumps d [] none
          (input_variables node_executors dumps d inputs inputs)
          none
          order
          (run node_executors dumps d inputs)
unfolding run
run_lem node_executors dumps d inputs h =
    let (order, v) = validate_definition-Validated d h in
    let (_, same, _) = (topological_order_lem d v.once v.edges).0 order v.sorted in
    (
      order,
      v.sorted,
      rw (run, h, v.sorted)
          (run_nodes-Ends node_executors dumps d inputs
            (λ x y m. targets_are_nodes (node_ids d.nodes) (arcs d) x y (arcs_join d v.edges) m)
            order (start node_executors dumps d inputs) none
            (all_nodes d order (λ x m. ground (arith, m, same x))) (λ x m. (λ k. tt, λ k. m))),
    )

abbrev pub result_ids : List NodeResult → List String
result_ids [] = []
result_ids (r ∷ rs) = r.node_id ∷ result_ids rs
