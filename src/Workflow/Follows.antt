-- ===== src/Workflow/Follows.antt =====
-- The run of the engine (app/workflows/engine/executor.py) follows the relation of Trace.
use ai_platform_mini.Prelude.{
  ◌≡◌, inl, inr, refl, subst, sym, ◌∙◌, String, true, false, Option, none, some, List, [], ◌∷◌,
  ◌++◌, Text, member, str_eq, eq_iff, arith, Bool-cases, All,
}
use ai_platform_mini.Workflow.Graph.{NodeType, WorkflowNode, WorkflowDefinition, node_ids, arcs}
use ai_platform_mini.Workflow.Order.{targets}
use ai_platform_mini.Workflow.Descendants.{descendants, descendants_lem}
use ai_platform_mini.Workflow.Conditions.{Variables}
use ai_platform_mini.Workflow.Engine.{
  NodeExecutor, NodeResult, RunStatus, WorkflowRunResult, Outcome, returns, find_node, Run, Next,
  next, goes_on, completed_result, failed_result, visit_node, run_nodes,
}
use ai_platform_mini.Workflow.Trace.{
  Reached, Trace, ends, skips, executes, chooses, fails, cuts, Stop, cut, stop_of, left_variables,
  left_output,
}
use ai_platform_mini.Workflow.Visits.{
  Visit, stopped, failed, executed, chosen, found_node, visit_node-Visit,
}

append_assoc : (xs ys : List NodeResult) (y : NodeResult) → (xs ++ y ∷ []) ++ ys ≡ xs ++ y ∷ ys
append_assoc [] ys y = refl
append_assoc (x ∷ xs) ys y = ground (arith, append_assoc xs ys y)

-- How a loop over the nodes that are left ends: by returning results that follow the relation
-- behind those that were there, or by the cancellation of a node's execution.
pub data Ends (node_executors : NodeType → Option NodeExecutor) (dumps : Variables → Text)
    (d : WorkflowDefinition) (before : List NodeResult) (from : Option String)
    (variables : Variables) (out : Option Text) (ids : List String) : Outcome → Type 0 where
  cancels :
      (rs : List NodeResult)
      → Trace node_executors dumps d from variables out ids rs cut none
      → Ends node_executors dumps d before from variables out ids Outcome.cancelled
  returns_trace :
      (x : WorkflowRunResult) (rs : List NodeResult)
      → x.node_results ≡ before ++ rs
      → Trace node_executors dumps d from variables out ids rs (stop_of x.error) x.output
      → x.status ≡ elim x.error [ none ↦ RunStatus.completed | some f ↦ RunStatus.failed ]
      → Ends node_executors dumps d before from variables out ids (returns x)

abbrev pub ActiveIs : WorkflowDefinition → List String → Option String → Type 0
ActiveIs d active from =
    (x : String)
    → member x (node_ids d.nodes) ≡ true
    → (member x active ≡ true → Reached (arcs d) from x)
      × (Reached (arcs d) from x → member x active ≡ true)

abbrev pub Nodes : WorkflowDefinition → List String → Type 0
Nodes d = All (λ x. member x (node_ids d.nodes) ≡ true)

module _ (node_executors : NodeType → Option NodeExecutor) (dumps : Variables → Text)
    (d : WorkflowDefinition) (from : Option String) (variables : Variables) (out : Option Text)
    (ids : List String) (before : List NodeResult) (id : String) where
  behind :
      (to : Option String) (variables' : Variables) (out' : Option Text) (r : NodeResult)
      → ((rs : List NodeResult) (stop : Stop) (output : Option Text)
          → Trace node_executors dumps d to variables' out' ids rs stop output
          → Trace node_executors dumps d from variables out (id ∷ ids) (r ∷ rs) stop output)
      → {o : Outcome} → Ends node_executors dumps d (before ++ r ∷ []) to variables' out' ids o
      → Ends node_executors dumps d before from variables out (id ∷ ids) o
  behind to variables' out' r f (cancels rs t) = cancels (r ∷ rs) (f rs cut none t)
  behind to variables' out' r f (returns_trace x rs e t s) =
      returns_trace x (r ∷ rs) (e ∙ append_assoc before rs r) (f rs (stop_of x.error) x.output t) s

  skipped :
      ¬ Reached (arcs d) from id
      → {o : Outcome} → Ends node_executors dumps d before from variables out ids o
      → Ends node_executors dumps d before from variables out (id ∷ ids) o
  skipped no_way (cancels rs t) = cancels rs (skips no_way t)
  skipped no_way (returns_trace x rs e t s) = returns_trace x rs e (skips no_way t) s

append_nil : (xs : List NodeResult) → xs ++ [] ≡ xs
append_nil [] = refl
append_nil (x ∷ xs) = ground (arith, append_nil xs)

module _ (node_executors : NodeType → Option NodeExecutor) (dumps : Variables → Text)
    (d : WorkflowDefinition) (inputs : Variables)
    (nodes : (x y : String)
      → member y (targets x (arcs d)) ≡ true
      → member y (node_ids d.nodes) ≡ true) where
  chosen-ActiveIs :
      (t : String) → ActiveIs d (t ∷ descendants (node_ids d.nodes) (arcs d) t) (some t)
  chosen-ActiveIs t x m =
      let (sound, full) = descendants_lem (node_ids d.nodes) (arcs d) t x nodes in
      (
        λ k. elim (Bool-cases (str_eq t x)) [
          | inl e ↦ inl ((eq_iff t x).0 e)
          | inr e ↦ inr (sound (ground (arith, k, e)))
        ],
        λ w. elim w [ inl e ↦ ground (arith, (eq_iff t x).1 e) | inr p ↦ ground (arith, full p) ],
      )

  not_active :
      (r : Run) (id : String)
      → member id r.active ≡ false
      → visit_node node_executors dumps d inputs r id ≡ goes_on r
  unfolding visit_node
  not_active r id h = rw (visit_node, h) refl

  abbrev Rest :
      List NodeResult → Option String → Variables → Option Text → List String → Outcome → Type 0
  Rest = Ends node_executors dumps d

  -- The loop from a node that was executed, if it follows the relation from the next one.
  after_visit :
      (id : String) (ids : List String) (r : Run) (n : WorkflowNode) (from : Option String)
      (o : Next)
      → ((r' : Run) (to : Option String)
          → ActiveIs d r'.active to
          → Rest r'.node_results to r'.variables r'.output ids
              (run_nodes node_executors dumps d inputs ids r'))
      → find_node id d.nodes ≡ some n
      → Reached (arcs d) from id
      → ActiveIs d r.active from
      → Visit node_executors dumps d inputs r n o
      → Rest r.node_results from r.variables r.output
          (id ∷ ids)
          (next (run_nodes node_executors dumps d inputs ids) o)
  after_visit id ids r n from o rest found reached a (stopped c) =
      cancels [] (cuts reached n found c)
  after_visit id ids r n from o rest found reached a (failed f why) =
      returns_trace
        (record {
          status = RunStatus.failed;
          inputs = inputs;
          output = none;
          node_results = r.node_results ++ failed_result n f ∷ [];
          error = some f;
        })
        (failed_result n f ∷ []) refl (fails reached n found f why) refl
  after_visit id ids r n from o rest found reached a (executed c y answer fine r' same) =
      behind node_executors dumps d from r.variables r.output ids r.node_results id from
        (left_variables n.type n y.output r.variables) (left_output n.type y.output r.output)
        (completed_result n) (λ rs stop output t. executes reached n found c y answer fine t)
        (subst
          (λ q.
            Rest q.node_results from q.variables q.output ids
              (run_nodes node_executors dumps d inputs ids r'))
          same (rest r' from (subst (λ q. ActiveIs d q.active from) (sym same) a)))
  after_visit id ids r n from o rest found reached a (chosen c t selected r' new) =
      behind node_executors dumps d from r.variables r.output ids r.node_results id (some t)
        r.variables r.output (completed_result n)
        (λ rs stop output tr. chooses reached n found c t selected tr)
        (subst
          (λ q.
            Rest q.node_results (some t) q.variables q.output ids
              (run_nodes node_executors dumps d inputs ids r'))
          new
          (rest r' (some t)
            (subst (λ q. ActiveIs d q.active (some t)) (sym new) (chosen-ActiveIs t))))

  pub run_nodes-Ends :
      (ids : List String) (r : Run) (from : Option String)
      → Nodes d ids
      → ActiveIs d r.active from
      → Rest r.node_results from r.variables r.output ids
          (run_nodes node_executors dumps d inputs ids r)
  unfolding run_nodes
  run_nodes-Ends [] r from ns a =
      returns_trace
        (record {
          status = RunStatus.completed;
          inputs = inputs;
          output = r.output;
          node_results = r.node_results;
          error = none;
        })
        [] (sym (append_nil r.node_results)) ends refl
  run_nodes-Ends (id ∷ ids) r from ns a = elim (Bool-cases (member id r.active)) [
    | inr out ↦
        rw (run_nodes, not_active r id out)
          (skipped node_executors dumps d from r.variables r.output ids r.node_results id
            (λ w. cc (out, (a id ns.0).1 w)) (run_nodes-Ends ids r from ns.1 a))
    | inl act ↦
        let (n, found, _) = found_node id d.nodes ns.0 in
        after_visit id ids r n from _ (λ r' to b. run_nodes-Ends ids r' to ns.1 b) found
          ((a id ns.0).0 act) a (visit_node-Visit node_executors dumps d inputs r id n act found)
  ]
