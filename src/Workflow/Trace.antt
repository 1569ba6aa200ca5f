-- ===== src/Workflow/Trace.antt =====
-- What a run of the engine (app/workflows/engine/executor.py) executes, as a relation on the order
-- of the nodes.
use ai_platform_mini.Prelude.{
  ◌≡◌, ◌⊎◌, String, true, false, Option, none, some, List, [], ◌∷◌, ◌++◌, Text, codes,
}
use ai_platform_mini.Prelude.Results.{Exception, ok}
use ai_platform_mini.Workflow.Graph.{
  NodeType, Branch, WorkflowNode, WorkflowEdge, WorkflowDefinition, is_condition, arcs,
}
use ai_platform_mini.Workflow.Descendants.{Below}
use ai_platform_mini.Workflow.Conditions.{Variables, as_text}
use ai_platform_mini.Workflow.Engine.{
  NodeOutput, set_variable, answers, raises, cancelled, NodeExecutor, Failure, raise_of, error_of,
  NodeResult, selected_target, find_node, completed_result, failed_result, execute_node,
}

abbrev pub branch_targets : List Branch → List String
branch_targets [] = []
branch_targets (b ∷ bs) = b.target ∷ branch_targets bs

-- The nodes that may run: all, until a condition has chosen a target, and then the target and what
-- lies below it.
abbrev pub Reached : List WorkflowEdge → Option String → String → Type 0
Reached as_ none x = Unit
Reached as_ (some t) x = (t ≡ x) ⊎ Below as_ t x

-- What the output of a completed node leaves of the variables and of the output of the run: an output
-- node sets the latter, any other node its own variable.
abbrev pub left_variables : NodeType → WorkflowNode → Option Text → Variables → Variables
left_variables NodeType.output n output variables = variables
left_variables _ n output variables =
    set_variable (codes n.id ++ codes ".output") (some (as_text output)) variables

abbrev pub left_output : NodeType → Option Text → Option Text → Option Text
left_output NodeType.output output before = output
left_output _ output before = before

-- How a run ends: behind the last node, at a node that failed, or at one that was cancelled.
pub data Stop : Type 0 where
  finished cut : Stop
  broken : Failure → Stop

abbrev pub stop_of : Option Failure → Stop
stop_of none = finished
stop_of (some f) = broken f

module _ (node_executors : NodeType → Option NodeExecutor) (dumps : Variables → Text) where
  -- A node fails where its execution raises, or answers with an error.
  pub data Fails (n : WorkflowNode) (variables : Variables) : Failure → Type 0 where
    by_exception :
        (e : Exception)
        → execute_node node_executors dumps n variables ≡ raises e
        → Fails n variables (raise_of e)
    by_answer :
        (o : NodeOutput)
        → execute_node node_executors dumps n variables ≡ answers o
        → (t : Text) → o.error ≡ some t
        → Fails n variables (error_of t)

  -- The results that a run makes of the nodes that are left of the order, how it stops, and its
  -- output. It depends on the chosen target, the variables and the output so far, and on what the
  -- executors answer to these variables.
  pub data Trace (d : WorkflowDefinition)
      : Option String
        → Variables
        → Option Text
        → List String
        → List NodeResult
        → Stop
        → Option Text
        → Type 0 where
    ends :
        {from : Option String} {variables : Variables} {out : Option Text}
        → Trace d from variables out [] [] finished out
    skips :
        {from : Option String} {variables : Variables} {out : Option Text} {id : String}
        {ids : List String} {rs : List NodeResult} {stop : Stop} {output : Option Text}
        → ¬ Reached (arcs d) from id
        → Trace d from variables out ids rs stop output
        → Trace d from variables out (id ∷ ids) rs stop output
    executes :
        {from : Option String} {variables : Variables} {out : Option Text} {id : String}
        {ids : List String} {rs : List NodeResult} {stop : Stop} {output : Option Text}
        → Reached (arcs d) from id
        → (n : WorkflowNode) → find_node id d.nodes ≡ some n
        → is_condition n.type ≡ false
        → (o : NodeOutput) → execute_node node_executors dumps n variables ≡ answers o
        → o.error ≡ none
        → Trace d from
            (left_variables n.type n o.output variables)
            (left_output n.type o.output out)
            ids
            rs
            stop
            output
        → Trace d from variables out (id ∷ ids) (completed_result n ∷ rs) stop output
    chooses :
        {from : Option String} {variables : Variables} {out : Option Text} {id : String}
        {ids : List String} {rs : List NodeResult} {stop : Stop} {output : Option Text}
        → Reached (arcs d) from id
        → (n : WorkflowNode) → find_node id d.nodes ≡ some n
        → is_condition n.type ≡ true
        → (target : String) → selected_target n variables ≡ ok target
        → Trace d (some target) variables out ids rs stop output
        → Trace d from variables out (id ∷ ids) (completed_result n ∷ rs) stop output
    fails :
        {from : Option String} {variables : Variables} {out : Option Text} {id : String}
        {ids : List String}
        → Reached (arcs d) from id
        → (n : WorkflowNode) → find_node id d.nodes ≡ some n
        → (f : Failure) → Fails n variables f
        → Trace d from variables out (id ∷ ids) (failed_result n f ∷ []) (broken f) none
    cuts :
        {from : Option String} {variables : Variables} {out : Option Text} {id : String}
        {ids : List String}
        → Reached (arcs d) from id
        → (n : WorkflowNode) → find_node id d.nodes ≡ some n
        → execute_node node_executors dumps n variables ≡ cancelled
        → Trace d from variables out (id ∷ ids) [] cut none
