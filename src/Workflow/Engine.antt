-- ===== src/Workflow/Engine.antt =====
-- `WorkflowEngine.run` (app/workflows/engine/executor.py). What the injected executors answer and
-- how `json.dumps` prints are parameters. Times and the summaries of a result, which are only
-- displayed, are left out, as are the words that an error's message puts around its cause.
use ai_platform_mini.Prelude.{
  String, true, false, Option, none, some, List, [], ◌∷◌, ◌++◌, Text, codes, text_eq, member,
  str_eq, if◌then◌else◌,
}
use ai_platform_mini.Prelude.Results.{Result, ok, raised, Exception, value_error, key_error, ◌>>=◌}
use ai_platform_mini.Workflow.Graph.{
  NodeType, Branch, WorkflowNode, WorkflowDefinition, node_ids, arcs,
}
use ai_platform_mini.Workflow.Order.{topological_order}
use ai_platform_mini.Workflow.Descendants.{descendants}
use ai_platform_mini.Workflow.Conditions.{
  Variables, as_text, after, evaluate_condition, render_template,
}
use ai_platform_mini.Workflow.Validation.{validate_definition}

-- `str` of the output, or `none` for None.
pub record NodeOutput : Type 0 where
  pub output : Option Text
  pub error : Option Text

pub data Execution : Type 0 where
  answers : NodeOutput → Execution
  raises : Exception → Execution
  cancelled : Execution

abbrev pub NodeExecutor : Type 0
NodeExecutor = WorkflowNode → Variables → Execution

-- Why a node failed: it raised, or its output has an error.
pub data Failure : Type 0 where
  raise_of : Exception → Failure
  error_of : Text → Failure

pub data NodeStatus : Type 0 where
  pending running completed failed : NodeStatus

pub record NodeResult : Type 0 where
  pub node_id : String
  pub type : NodeType
  pub status : NodeStatus
  pub error : Option Failure

pub data RunStatus : Type 0 where
  completed failed : RunStatus

pub record WorkflowRunResult : Type 0 where
  pub status : RunStatus
  pub inputs : Variables
  pub output : Option Text
  pub node_results : List NodeResult
  pub error : Option Failure

-- How a run ends: with its result, an exception, or by its cancellation.
pub data Outcome : Type 0 where
  returns : WorkflowRunResult → Outcome
  escapes : Exception → Outcome
  cancelled : Outcome

-- `variables[name] = value`
unfoldable pub set_variable : Text → Option Text → Variables → Variables
set_variable name v [] = (name, v) ∷ []
set_variable name v ((k, w) ∷ vs) =
    if text_eq k name then (k, v) ∷ vs else (k, w) ∷ set_variable name v vs

unfoldable pub variables_inputs : Variables → Variables
unfolding after
variables_inputs [] = []
variables_inputs ((k, v) ∷ vs) = elim (after (codes "input.") k) [
  | none ↦ variables_inputs vs
  | some name ↦ (name, v) ∷ variables_inputs vs
]

-- The first branch whose condition holds, and else the first without a condition.
abbrev pub default_target : List Branch → Result String
default_target [] = raised value_error
default_target (b ∷ bs) = elim b.condition [ none ↦ ok b.target | some c ↦ default_target bs ]

unfoldable pub matching_target : List Branch → Variables → Result (Option String)
matching_target [] variables = ok none
matching_target (b ∷ bs) variables = elim b.condition [
  | none ↦ matching_target bs variables
  | some c ↦ evaluate_condition c variables >>= λ holds. elim holds [
    | true ↦ ok (some b.target)
    | false ↦ matching_target bs variables
  ]
]

unfoldable pub selected_target : WorkflowNode → Variables → Result String
unfolding matching_target
selected_target n variables = matching_target n.branches variables >>= λ found. elim found [
  | some target ↦ ok target
  | none ↦ default_target n.branches
]

unfoldable pub branch_for_target : List Branch → String → Result Branch
branch_for_target [] target = raised value_error
branch_for_target (b ∷ bs) target =
    let rest = branch_for_target bs target in if str_eq b.target target then ok b else rest

abbrev pub answer : Result Text → Execution
answer (ok t) = answers (record { output = some t; error = none })
answer (raised e) = raises e

abbrev pub template_of : Option Text → Result Text
template_of none = raised value_error
template_of (some t) = ok t

abbrev pub call : Option NodeExecutor → NodeExecutor
call none n variables = raises value_error
call (some execute) n variables = execute n variables

-- `nodes_by_id[node_id]`
unfoldable pub find_node : String → List WorkflowNode → Option WorkflowNode
find_node id [] = none
find_node id (n ∷ ns) = if str_eq n.id id then some n else find_node id ns

abbrev pub completed_result : WorkflowNode → NodeResult
completed_result n = record {
  node_id = n.id;
  type = n.type;
  status = NodeStatus.completed;
  error = none;
}

abbrev pub failed_result : WorkflowNode → Failure → NodeResult
failed_result n f = record {
  node_id = n.id;
  type = n.type;
  status = NodeStatus.failed;
  error = some f;
}

-- The variables of `run` that its loop changes.
pub record Run : Type 0 where
  pub variables : Variables
  pub node_results : List NodeResult
  pub active : List String
  pub output : Option Text

pub data Next : Type 0 where
  goes_on : Run → Next
  stops : Outcome → Next

abbrev pub next : (Run → Outcome) → Next → Outcome
next rest (goes_on r) = rest r
next rest (stops o) = o

module _ (node_executors : NodeType → Option NodeExecutor) (dumps : Variables → Text) where
  abbrev execute_by_type : NodeType → NodeExecutor
  execute_by_type NodeType.input n variables = answer (ok (dumps (variables_inputs variables)))
  execute_by_type NodeType.condition n variables = answer (
      selected_target n variables >>= λ selected.
      branch_for_target n.branches selected >>= λ branch. ok (codes selected))
  execute_by_type NodeType.output n variables =
      answer (template_of n.output_template >>= λ template. render_template template variables)
  execute_by_type type n variables = call (node_executors type) n variables

  unfoldable pub execute_node : NodeExecutor
  unfolding variables_inputs selected_target branch_for_target
  execute_node n variables = execute_by_type n.type n variables

  module _ (d : WorkflowDefinition) (inputs : Variables) where
    abbrev pub failed_run : Run → WorkflowNode → Failure → Next
    failed_run r n f = stops (
        returns (record {
          status = RunStatus.failed;
          inputs = inputs;
          output = none;
          node_results = r.node_results ++ failed_result n f ∷ [];
          error = some f;
        }))

    -- Behind a completed node: `{target} | _descendants(target, adjacency, set())`
    abbrev pub choose : Run → Result String → Next
    choose r (raised e) = stops (escapes e)
    choose r (ok target) =
        goes_on (record r { active = target ∷ descendants (node_ids d.nodes) (arcs d) target })

    abbrev pub complete : NodeType → WorkflowNode → Option Text → Run → Next
    complete NodeType.output n output r = goes_on (record r { output = output })
    complete NodeType.condition n output r = choose r (selected_target n r.variables)
    complete _ n output r = goes_on (record r {
      variables = set_variable (codes n.id ++ codes ".output") (some (as_text output)) r.variables;
    })

    abbrev pub settle : Run → WorkflowNode → Execution → Next
    settle r n cancelled = stops Outcome.cancelled
    settle r n (raises e) = failed_run r n (raise_of e)
    settle r n (answers o) = elim o.error [
      | some t ↦ failed_run r n (error_of t)
      | none ↦
          complete n.type n o.output
            (record r { node_results = r.node_results ++ completed_result n ∷ [] })
    ]

    -- The body of the loop.
    unfoldable pub visit_node : Run → String → Next
    unfolding execute_node find_node set_variable
    visit_node r id = elim (member id r.active) [
      | false ↦ goes_on r
      | true ↦ elim (find_node id d.nodes) [
        | none ↦ stops (escapes key_error)
        | some n ↦ settle r n (execute_node n r.variables)
      ]
    ]

    unfoldable pub run_nodes : List String → Run → Outcome
    unfolding visit_node
    run_nodes [] r = returns (record {
      status = RunStatus.completed;
      inputs = inputs;
      output = r.output;
      node_results = r.node_results;
      error = none;
    })
    run_nodes (id ∷ ids) r = next (run_nodes ids) (visit_node r id)

    abbrev pub input_variables : Variables → Variables
    input_variables [] = []
    input_variables ((k, v) ∷ vs) = (codes "input." ++ k, v) ∷ input_variables vs

    abbrev pub start : Run
    start = record {
      variables = input_variables inputs;
      node_results = [];
      active = node_ids d.nodes;
      output = none;
    }

    unfoldable pub run : Outcome
    unfolding run_nodes
    run = elim (validate_definition d) [
      | raised e ↦ escapes e
      | ok _ ↦ elim (topological_order d) [
        | none ↦ escapes value_error
        | some order ↦ run_nodes order start
      ]
    ]
