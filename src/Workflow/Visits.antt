-- ===== src/Workflow/Visits.antt =====
-- What becomes of a node that the engine (app/workflows/engine/executor.py) executes.
use ai_platform_mini.Prelude.{
  ◌≡◌, inl, inr, refl, subst, sym, String, true, false, Option, none, some, List, [], ◌∷◌, ◌++◌,
  Text, codes, member, str_eq, eq_iff, arith, Bool-cases, Option-cases,
}
use ai_platform_mini.Prelude.Results.{Exception, ok, raised, Result-cases}
use ai_platform_mini.Workflow.Graph.{
  NodeType, Branch, WorkflowNode, WorkflowDefinition, is_condition, node_ids, arcs,
}
use ai_platform_mini.Workflow.Descendants.{descendants}
use ai_platform_mini.Workflow.Conditions.{Variables, evaluate_condition}
use ai_platform_mini.Workflow.Engine.{
  Execution, NodeOutput, answers, raises, cancelled, NodeExecutor, Failure, raise_of, error_of,
  Outcome, matching_target, selected_target, branch_for_target, find_node, default_target,
  completed_result, Run, Next, goes_on, stops, execute_node, failed_run, complete, settle,
  visit_node,
}
use ai_platform_mini.Workflow.Trace.{
  branch_targets, left_variables, left_output, Fails, by_exception, by_answer,
}

default_target-member :
    (bs : List Branch) (t : String) → default_target bs ≡ ok t → member t (branch_targets bs) ≡ true
default_target-member [] t h = cc
default_target-member (b ∷ bs) t h = elim (Option-cases b.condition) [
  | inl e ↦ ground (arith, e, h, eq_iff b.target t)
  | inr (c, e) ↦ ground (arith, e, h, default_target-member bs t)
]

matching_target-member :
    (bs : List Branch) (variables : Variables) (t : String)
    → matching_target bs variables ≡ ok (some t)
    → member t (branch_targets bs) ≡ true
unfolding matching_target
matching_target-member [] variables t h = cc
matching_target-member (b ∷ bs) variables t h = elim (Option-cases b.condition) [
  | inl e ↦ ground (arith, e, h, matching_target-member bs variables t)
  | inr (c, e) ↦ elim (Result-cases (evaluate_condition c variables)) [
    | inr (x, f) ↦ ground (arith, e, f, h)
    | inl (true, f) ↦ ground (arith, e, f, h, eq_iff b.target t)
    | inl (false, f) ↦ ground (arith, e, f, h, matching_target-member bs variables t)
  ]
]

-- A selected target is the target of a branch.
pub selected_target-member :
    (n : WorkflowNode) (variables : Variables) (t : String)
    → selected_target n variables ≡ ok t
    → member t (branch_targets n.branches) ≡ true
unfolding selected_target
selected_target-member n variables t h =
    elim (Result-cases (matching_target n.branches variables)) [
      | inr (x, f) ↦ ground (arith, f, h)
      | inl (none, f) ↦ ground (arith, f, h, default_target-member n.branches t)
      | inl (some u, f) ↦ ground (arith, f, h, matching_target-member n.branches variables t)
    ]

branch_found :
    (bs : List Branch) (t : String)
    → member t (branch_targets bs) ≡ true
    → (b : Branch) × (branch_for_target bs t ≡ ok b)
unfolding branch_for_target
branch_found [] t h = cc
branch_found (b ∷ bs) t h = elim (Bool-cases (str_eq b.target t)) [
  | inl e ↦ (b, ground (arith, e))
  | inr e ↦ let (c, f) = branch_found bs t (ground (arith, h, e)) in (c, ground (arith, e, f))
]

pub found_node :
    (id : String) (ns : List WorkflowNode)
    → member id (node_ids ns) ≡ true
    → (n : WorkflowNode) × (find_node id ns ≡ some n) × (n.id ≡ id)
unfolding find_node
found_node id [] h = cc
found_node id (n ∷ ns) h = elim (Bool-cases (str_eq n.id id)) [
  | inl e ↦ (n, ground (arith, e), (eq_iff n.id id).0 e)
  | inr e ↦ let (m, f, g) = found_node id ns (ground (arith, h, e)) in (m, ground (arith, e, f), g)
]

module _ (node_executors : NodeType → Option NodeExecutor) (dumps : Variables → Text)
    (d : WorkflowDefinition) (inputs : Variables) where
  -- The run behind a node that was completed with an output.
  abbrev pub answered : Run → WorkflowNode → Option Text → Run
  answered r n output = record r {
    variables = left_variables n.type n output r.variables;
    node_results = r.node_results ++ completed_result n ∷ [];
    output = left_output n.type output r.output;
  }

  -- What becomes of a node that is executed.
  pub data Visit (r : Run) (n : WorkflowNode) : Next → Type 0 where
    stopped :
        execute_node node_executors dumps n r.variables ≡ cancelled
        → Visit r n (stops Outcome.cancelled)
    failed :
        (f : Failure)
        → Fails node_executors dumps n r.variables f
        → Visit r n (failed_run node_executors dumps d inputs r n f)
    executed :
        is_condition n.type ≡ false
        → (o : NodeOutput) → execute_node node_executors dumps n r.variables ≡ answers o
        → o.error ≡ none
        → (r' : Run) → r' ≡ answered r n o.output
        → Visit r n (goes_on r')
    chosen :
        is_condition n.type ≡ true
        → (target : String) → selected_target n r.variables ≡ ok target
        → (r' : Run)
        → r' ≡ record r {
          node_results = r.node_results ++ completed_result n ∷ [];
          active = target ∷ descendants (node_ids d.nodes) (arcs d) target;
        }
        → Visit r n (goes_on r')

  complete-Visit :
      (r : Run) (n : WorkflowNode) (type : NodeType) (o : NodeOutput)
      → n.type ≡ type
      → is_condition type ≡ false
      → execute_node node_executors dumps n r.variables ≡ answers o
      → o.error ≡ none
      → Visit r n (
          complete node_executors dumps d inputs type n o.output
            (record r { node_results = r.node_results ++ completed_result n ∷ [] }))
  complete-Visit r n NodeType.condition o e h a b = cc
  complete-Visit r n NodeType.output o e h a b = executed (rw e refl) o a b _ (rw e refl)
  complete-Visit r n _ o e h a b = executed (rw e refl) o a b _ (rw e refl)

  settle-Visit :
      (r : Run) (n : WorkflowNode) (x : Execution)
      → is_condition n.type ≡ false
      → execute_node node_executors dumps n r.variables ≡ x
      → Visit r n (settle node_executors dumps d inputs r n x)
  settle-Visit r n cancelled h a = stopped a
  settle-Visit r n (raises e) h a = failed (raise_of e) (by_exception e a)
  settle-Visit r n (answers o) h a = elim (Option-cases o.error) [
    | inl e ↦ rw e (complete-Visit r n n.type o refl h a e)
    | inr (t, e) ↦ rw e (failed (error_of t) (by_answer o a t e))
  ]

  condition-answers :
      (n : WorkflowNode) (variables : Variables) (t : String) (b : Branch)
      → n.type ≡ NodeType.condition
      → selected_target n variables ≡ ok t
      → branch_for_target n.branches t ≡ ok b
      → execute_node node_executors dumps n variables
        ≡ answers (record { output = some (codes t); error = none })
  unfolding execute_node
  condition-answers n variables t b e f g = ground (arith, e, f, g)

  condition-raises :
      (n : WorkflowNode) (variables : Variables) (x : Exception)
      → n.type ≡ NodeType.condition
      → selected_target n variables ≡ raised x
      → execute_node node_executors dumps n variables ≡ raises x
  unfolding execute_node
  condition-raises n variables x e f = ground (arith, e, f)

  condition-Visit :
      (r : Run) (n : WorkflowNode) (type : NodeType)
      → n.type ≡ type
      → is_condition type ≡ true
      → Visit r n (
          settle node_executors dumps d inputs r n
            (execute_node node_executors dumps n r.variables))
  condition-Visit r n NodeType.condition e k = elim (Result-cases (selected_target n r.variables)) [
    | inr (x, f) ↦
        let a = condition-raises n r.variables x e f in
        rw a (failed (raise_of x) (by_exception x a))
    | inl (t, f) ↦
        let (b, g) = branch_found n.branches t (selected_target-member n r.variables t f) in
        let r' = record r { node_results = r.node_results ++ completed_result n ∷ [] } in
        rw (condition-answers n r.variables t b e f g) (
          subst
            (λ type. Visit r n (complete node_executors dumps d inputs type n (some (codes t)) r'))
            (sym e) (rw f (chosen (rw e refl) t f _ refl)))
  ]
  condition-Visit r n _ e k = cc

  pub visit_node-Visit :
      (r : Run) (id : String) (n : WorkflowNode)
      → member id r.active ≡ true
      → find_node id d.nodes ≡ some n
      → Visit r n (visit_node node_executors dumps d inputs r id)
  unfolding visit_node
  visit_node-Visit r id n m f = elim (Bool-cases (is_condition n.type)) [
    | inl c ↦ rw (visit_node, m, f) (condition-Visit r n n.type refl c)
    | inr c ↦
        rw (visit_node, m, f)
          (settle-Visit r n (execute_node node_executors dumps n r.variables) c refl)
  ]
