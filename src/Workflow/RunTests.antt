-- ===== src/Workflow/RunTests.antt =====
-- Runs of the engine on small definitions.
use ai_platform_mini.Prelude.{
  ◌≡◌, refl, String, true, all, Option, none, some, List, [], ◌∷◌, Text, codes, text_eq, is_space,
  skip_space, starts_with, member, Distinct,
}
use ai_platform_mini.Prelude.Dict.{get, put}
use ai_platform_mini.Prelude.Results.{ok, value_error}
use ai_platform_mini.Workflow.Graph.{
  NodeType, Branch, WorkflowNode, WorkflowEdge, WorkflowDefinition, node_ids, arcs,
}
use ai_platform_mini.Workflow.Order.{
  targets, topological_order, ordered_ids, kahn, relax, count_arcs,
}
use ai_platform_mini.Workflow.Kahn.{Ordered}
use ai_platform_mini.Workflow.Descendants.{descendants, visit}
use ai_platform_mini.Workflow.Conditions.{
  Variables, lookup, after, span, is_id, is_word, match_variable, match_form, quoted, holds,
  occurs_in, evaluate_condition, render_from, render_template, prepend,
}
use ai_platform_mini.Workflow.Rendered.{render_template-variable}
use ai_platform_mini.Workflow.Validation.{
  match_reference, references_from, index_of, validate_reference, validate_template_references,
  is_valid_condition, validate_branches, validate_condition_node, validate_edge,
  validate_definition,
}
use ai_platform_mini.Workflow.Engine.{
  NodeExecutor, answers, returns, WorkflowRunResult, RunStatus, completed_result, failed_result,
  raise_of, set_variable, variables_inputs, matching_target, selected_target, branch_for_target,
  find_node, execute_node, visit_node, run_nodes, run, input_variables,
}
use ai_platform_mini.Workflow.Follows.{Ends}
use ai_platform_mini.Workflow.Runs.{run_lem, result_ids, targets_are_nodes}
use ai_platform_mini.Workflow.Sorted.{arcs_join}
use ai_platform_mini.Workflow.Precedence.{sources_come_first}

abbrev executors : NodeType → Option NodeExecutor
executors NodeType.llm =
    some (λ n variables. answers (record { output = some (codes "hello"); error = none }))
executors _ = none

abbrev dumps : Variables → Text
dumps [] = codes "{}"
dumps (_ ∷ _) = codes "{..}"

abbrev inputs : Variables
inputs = (codes "q", some (codes "why")) ∷ []

abbrev node : String → NodeType → List Branch → Option Text → WorkflowNode
node id type branches template = record {
  id = id;
  type = type;
  branches = branches;
  output_template = template;
  texts = [];
}

abbrev edge : String → String → WorkflowEdge
edge a b = record { from_node = a; to_node = b }

-- "in" leads to "say", and "say" to the condition "if", which selects "yes" or "no".
abbrev say_node : WorkflowNode
say_node = node "say" NodeType.llm [] none

abbrev if_node : WorkflowNode
if_node =
    node "if" NodeType.condition
      (record { condition = some (codes "{{say.output}} contains 'ell'"); target = "yes" }
        ∷ record { condition = none; target = "no" }
        ∷ [])
      none

abbrev yes_node : WorkflowNode
yes_node = node "yes" NodeType.output [] (some (codes "{{say.output}}, {{input.q}}?"))

abbrev graph : WorkflowDefinition
graph = record {
  nodes =
      node "in" NodeType.input [] none
      ∷ say_node
      ∷ if_node
      ∷ node "no" NodeType.output [] (some (codes "no"))
      ∷ yes_node
      ∷ [];
  edges = edge "in" "say" ∷ edge "say" "if" ∷ [];
}

graph_is_valid : validate_definition graph ≡ ok tt
unfolding validate_definition validate_edge validate_condition_node validate_branches
    is_valid_condition validate_template_references validate_reference index_of references_from
    match_reference match_form quoted match_variable after span is_id is_word is_space skip_space
    text_eq topological_order ordered_ids kahn relax count_arcs arcs get put
graph_is_valid = refl

abbrev result : WorkflowRunResult
result = record {
  status = RunStatus.completed;
  inputs = inputs;
  output = some (codes "hello, why?");
  node_results =
      completed_result (node "in" NodeType.input [] none)
      ∷ completed_result say_node
      ∷ completed_result if_node
      ∷ completed_result yes_node
      ∷ [];
  error = none;
}

graph_runs : run executors dumps graph inputs ≡ returns result
unfolding run run_nodes visit_node execute_node selected_target matching_target branch_for_target
    find_node set_variable variables_inputs descendants visit evaluate_condition holds occurs_in
    render_template render_from lookup validate_definition validate_edge validate_condition_node
    validate_branches is_valid_condition validate_template_references validate_reference index_of
    references_from match_reference match_form quoted match_variable after span is_id is_word
    is_space skip_space starts_with text_eq topological_order ordered_ids kahn relax count_arcs arcs
    get put
graph_runs = refl

run_lem_example :
    (order : List String) × (topological_order graph ≡ some order)
    × Ends executors dumps graph [] none
        (input_variables executors dumps graph inputs inputs)
        none
        order
        (run executors dumps graph inputs)
run_lem_example = run_lem executors dumps graph inputs graph_is_valid

sources_come_first_example :
    Distinct (result_ids result.node_results)
    × Ordered (arcs graph) [] (result_ids result.node_results)
sources_come_first_example =
    sources_come_first executors dumps graph inputs result graph_is_valid graph_runs

ends_of_graph :
    (x y : String)
    → member y (targets x (arcs graph)) ≡ true
    → member y (node_ids graph.nodes) ≡ true
ends_of_graph x y m =
    targets_are_nodes (node_ids graph.nodes) (arcs graph) x y (arcs_join graph refl) m

abbrev variables : Variables
variables = (codes "input.q", some (codes "hello")) ∷ []

name_and_field : (all is_id (codes "input") ≡ true) × (all is_word (codes "q") ≡ true)
unfolding is_id is_word
name_and_field = (refl, refl)

one_space : all is_space (codes " ") ≡ true
unfolding is_space
one_space = refl

finds_input : lookup (codes "input.q") variables ≡ some (some (codes "hello"))
unfolding lookup text_eq
finds_input = refl

render_template-variable_example :
    render_template (codes "say {{ input.q }}!") variables
    ≡ prepend (codes "say hello") (render_template (codes "!") variables)
render_template-variable_example =
    render_template-variable variables (codes " ") 105 (codes "nput") (codes "q") (codes " ")
      (codes "!") (some (codes "hello")) (codes "say ") refl one_space name_and_field.0
      name_and_field.1 one_space finds_input

-- A condition sets no variable: a reference to its output is accepted, and fails in every run.
abbrev referring : WorkflowDefinition
referring = record {
  nodes =
      node "in" NodeType.input [] none
      ∷ node "if" NodeType.condition (record { condition = none; target = "out" } ∷ []) none
      ∷ node "out" NodeType.output [] (some (codes "{{if.output}}"))
      ∷ [];
  edges = edge "in" "if" ∷ [];
}

referring_is_valid : validate_definition referring ≡ ok tt
unfolding validate_definition validate_edge validate_condition_node validate_branches
    is_valid_condition validate_template_references validate_reference index_of references_from
    match_reference match_form quoted match_variable after span is_id is_word is_space skip_space
    text_eq topological_order ordered_ids kahn relax count_arcs arcs get put
referring_is_valid = refl

referring_fails :
    run executors dumps referring inputs
    ≡ returns (record {
      status = RunStatus.failed;
      inputs = inputs;
      output = none;
      node_results =
          completed_result (node "in" NodeType.input [] none)
          ∷ completed_result
              (node "if" NodeType.condition (record { condition = none; target = "out" } ∷ []) none)
          ∷ failed_result
              (node "out" NodeType.output [] (some (codes "{{if.output}}")))
              (raise_of value_error)
          ∷ [];
      error = some (raise_of value_error);
    })
unfolding run run_nodes visit_node execute_node selected_target matching_target branch_for_target
    find_node set_variable variables_inputs descendants visit evaluate_condition holds occurs_in
    render_template render_from lookup validate_definition validate_edge validate_condition_node
    validate_branches is_valid_condition validate_template_references validate_reference index_of
    references_from match_reference match_form quoted match_variable after span is_id is_word
    is_space skip_space starts_with text_eq topological_order ordered_ids kahn relax count_arcs arcs
    get put
referring_fails = refl

-- "say" leads to the condition and to an output: the output is skipped, as it is not below the
-- chosen target, and the run completes without it.
abbrev fan_out : WorkflowDefinition
fan_out = record {
  nodes =
      node "in" NodeType.input [] none
      ∷ say_node
      ∷ node "if" NodeType.condition (record { condition = none; target = "next" } ∷ []) none
      ∷ node "next" NodeType.llm [] none
      ∷ node "out" NodeType.output [] (some (codes "{{say.output}}"))
      ∷ [];
  edges = edge "in" "say" ∷ edge "say" "if" ∷ edge "say" "out" ∷ [];
}

fan_out_is_valid : validate_definition fan_out ≡ ok tt
unfolding validate_definition validate_edge validate_condition_node validate_branches
    is_valid_condition validate_template_references validate_reference index_of references_from
    match_reference match_form quoted match_variable after span is_id is_word is_space skip_space
    text_eq topological_order ordered_ids kahn relax count_arcs arcs get put
fan_out_is_valid = refl

fan_out_has_no_output :
    run executors dumps fan_out inputs
    ≡ returns (record {
      status = RunStatus.completed;
      inputs = inputs;
      output = none;
      node_results =
          completed_result (node "in" NodeType.input [] none)
          ∷ completed_result say_node
          ∷ completed_result (
              node "if" NodeType.condition (record { condition = none; target = "next" } ∷ []) none)
          ∷ completed_result (node "next" NodeType.llm [] none)
          ∷ [];
      error = none;
    })
unfolding run run_nodes visit_node execute_node selected_target matching_target branch_for_target
    find_node set_variable variables_inputs descendants visit evaluate_condition holds occurs_in
    render_template render_from lookup validate_definition validate_edge validate_condition_node
    validate_branches is_valid_condition validate_template_references validate_reference index_of
    references_from match_reference match_form quoted match_variable after span is_id is_word
    is_space skip_space starts_with text_eq topological_order ordered_ids kahn relax count_arcs arcs
    get put
fan_out_has_no_output = refl
