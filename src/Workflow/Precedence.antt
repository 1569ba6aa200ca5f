-- ===== src/Workflow/Precedence.antt =====
-- The order in which a run of the engine (app/workflows/engine/executor.py) executes nodes: none
-- before the node that it follows.
use ai_platform_mini.Prelude.{
  ◌≡◌, ◌⊎◌, inl, inr, refl, sym, subst, String, true, Option, none, some, List, [], ◌∷◌, ◌++◌, Text,
  member, member-append, Distinct, str_eq, eq_iff, eq_refl, arith, Bool-cases,
}
use ai_platform_mini.Prelude.Results.{ok}
use ai_platform_mini.Workflow.Graph.{NodeType, WorkflowNode, WorkflowDefinition, node_ids, arcs}
use ai_platform_mini.Workflow.Order.{targets}
use ai_platform_mini.Workflow.Descendants.{Below, arc, via}
use ai_platform_mini.Workflow.Degrees.{sources_in}
use ai_platform_mini.Workflow.Kahn.{Ordered, snoc_assoc}
use ai_platform_mini.Workflow.Sorted.{arcs_join, topological_order_lem}
use ai_platform_mini.Workflow.Conditions.{Variables}
use ai_platform_mini.Workflow.Validation.{validate_definition}
use ai_platform_mini.Workflow.Validated.{Validated, validate_definition-Validated}
use ai_platform_mini.Workflow.Engine.{
  NodeExecutor, NodeResult, Outcome, returns, WorkflowRunResult, find_node, input_variables, run,
}
use ai_platform_mini.Workflow.Trace.{
  Reached, Trace, ends, skips, executes, chooses, fails, cuts, Stop,
}
use ai_platform_mini.Workflow.Visits.{selected_target-member}
use ai_platform_mini.Workflow.Follows.{Ends, cancels, returns_trace}
use ai_platform_mini.Workflow.Sources.{
  all_in, same_source, one_incoming, source_done, target_left, apart_in,
}
use ai_platform_mini.Workflow.Chosen.{target_arc}
use ai_platform_mini.Workflow.Runs.{targets_are_nodes, sources_are_nodes, run_lem, result_ids}

found_id :
    (id : String) (ns : List WorkflowNode) (n : WorkflowNode) → find_node id ns ≡ some n → n.id ≡ id
unfolding find_node
found_id id [] n h = cc
found_id id (x ∷ ns) n h = ground (arith, h, found_id id ns n, eq_iff x.id id)

module _ (node_executors : NodeType → Option NodeExecutor) (dumps : Variables → Text)
    (d : WorkflowDefinition) (order : List String) (v : Validated d order) where
  -- The source of a node that may still run is executed, or may still run itself.
  abbrev Supplied : List String → List String → Option String → Type 0
  Supplied done ids from =
      (x y : String)
      → member x ids ≡ true
      → Reached (arcs d) from x
      → member x (targets y (arcs d)) ≡ true
      → (member y done ≡ true) ⊎ ((member y ids ≡ true) × Reached (arcs d) from y)

  -- Of nodes that are `left` behind those that have been passed.
  record Split (passed left : List String) : Type 0 where
    sorted : Ordered (arcs d) [] (passed ++ left)
    once : Distinct (passed ++ left)
    nodes : (x : String) → member x (node_ids d.nodes) ≡ true → member x (passed ++ left) ≡ true

  next :
      (passed left : List String) (id : String)
      → Split passed (id ∷ left)
      → Split (passed ++ id ∷ []) left
  next passed left id s = record {
    sorted = subst (Ordered (arcs d) []) (sym (snoc_assoc passed left id)) s.sorted;
    once = subst Distinct (sym (snoc_assoc passed left id)) s.once;
    nodes = λ x m. subst (λ xs. member x xs ≡ true) (sym (snoc_assoc passed left id)) (s.nodes x m);
  }

  is_node :
      (x y : String) → member x (targets y (arcs d)) ≡ true → member x (node_ids d.nodes) ≡ true
  is_node x y m = targets_are_nodes (node_ids d.nodes) (arcs d) y x (arcs_join d v.edges) m

  only :
      (x y z : String)
      → member x (targets y (arcs d)) ≡ true
      → member x (targets z (arcs d)) ≡ true
      → y ≡ z
  only x y z m n =
      same_source (arcs d) x y z (one_incoming (arcs d) d.nodes x v.one_source (is_node x y m)) m n

  module _ (passed left : List String) (id : String) (s : Split passed (id ∷ left)) where
    left_below :
        (x y : String)
        → member y (id ∷ left) ≡ true
        → member x (targets y (arcs d)) ≡ true
        → member x left ≡ true
    left_below x y l m =
        target_left (arcs d) passed id left s.sorted s.once x y l (s.nodes x (is_node x y m)) m

    all_left : {t z : String} → member t left ≡ true → Below (arcs d) t z → member z left ≡ true
    all_left {t} l (arc m) = left_below _ t (ground (arith, l)) m
    all_left l (via {b} p m) = left_below _ b (ground (arith, all_left l p)) m

    -- All sources of the next node that runs are executed.
    sources_executed :
        (done : List String) (from : Option String)
        → Supplied done (id ∷ left) from
        → Reached (arcs d) from id
        → sources_in (arcs d) id done ≡ true
    sources_executed done from g r = all_in (arcs d) id done (λ y m.
        elim (g id y (ground (arith, eq_refl id)) r m) [
          | inl e ↦ e
          | inr (l, _) ↦ ground (
            arith,
            l,
            source_done (arcs d) passed id left s.sorted s.once y m,
            apart_in (arcs d) passed (id ∷ left) y s.once,
          )
        ])

    skip-Supplied :
        (done : List String) (from : Option String)
        → Supplied done (id ∷ left) from
        → ¬ Reached (arcs d) from id
        → Supplied done left from
    skip-Supplied done from g no_way x y l r m = elim (g x y (ground (arith, l)) r m) [
      | inl e ↦ inl e
      | inr (k, w) ↦ elim (Bool-cases (str_eq id y)) [
        | inl e ↦ absurd (no_way (subst (Reached (arcs d) from) (sym ((eq_iff id y).0 e)) w))
        | inr e ↦ inr (ground (arith, k, e), w)
      ]
    ]

    execute-Supplied :
        (done : List String) (from : Option String)
        → Supplied done (id ∷ left) from
        → Supplied (done ++ id ∷ []) left from
    execute-Supplied done from g x y l r m = elim (g x y (ground (arith, l)) r m) [
      | inl e ↦ inl (ground (arith, e, member-append y done (id ∷ [])))
      | inr (k, w) ↦ elim (Bool-cases (str_eq id y)) [
        | inl e ↦ inl (ground (arith, e, member-append y done (id ∷ [])))
        | inr e ↦ inr (ground (arith, k, e), w)
      ]
    ]

    choose-Supplied :
        (done : List String) (t : String)
        → member t (targets id (arcs d)) ≡ true
        → Supplied (done ++ id ∷ []) left (some t)
    choose-Supplied done t a x y l (inl e) m =
        let same = only x y id m (subst (λ z. member z (targets id (arcs d)) ≡ true) e a) in
        inl (ground (arith, same, eq_refl id, member-append y done (id ∷ [])))
    choose-Supplied done t a x y l (inr (arc n)) m =
        let same = only x y t m n in
        inr (
          subst (λ z. member z left ≡ true) (sym same)
              (left_below t id (ground (arith, eq_refl id)) a),
          inl (sym same),
        )
    choose-Supplied done t a x y l (inr (via {b} p n)) m =
        let same = only x y b m n in
        let l' = left_below t id (ground (arith, eq_refl id)) a in
        inr (
          subst (λ z. member z left ≡ true) (sym same) (all_left l' p),
          inr (subst (Below (arcs d) t) (sym same) p),
        )

  within :
      {from : Option String} {left : List String} {rs : List NodeResult} {stop : Stop}
      {variables : Variables} {out output : Option Text} (x : String)
      → Trace node_executors dumps d from variables out left rs stop output
      → member x (result_ids rs) ≡ true
      → member x left ≡ true
  within x ends m = cc
  within x (skips {id} w t) m = ground (arith, within x t m)
  within x (executes {id} w n f c _ _ _ t) m =
      ground (arith, m, within x t, found_id id d.nodes n f)
  within x (chooses {id} w n f c target s t) m =
      ground (arith, m, within x t, found_id id d.nodes n f)
  within x (cuts w n f e) m = cc
  within x (fails {id} w n f e _) m = ground (arith, m, found_id id d.nodes n f)

  trace-Ordered :
      {from : Option String} {left : List String} {rs : List NodeResult} {stop : Stop}
      {variables : Variables} {out output : Option Text} (passed done : List String)
      → Split passed left
      → Supplied done left from
      → Trace node_executors dumps d from variables out left rs stop output
      → Ordered (arcs d) done (result_ids rs)
  trace-Ordered passed done s g ends = tt
  trace-Ordered {from} passed done s g (skips {id} {ids} w t) =
      trace-Ordered (passed ++ id ∷ []) done (next passed ids id s)
        (skip-Supplied passed ids id s done from g w) t
  trace-Ordered {from} passed done s g (executes {id} {ids} {rs} w n f c _ _ _ t) =
      let e = found_id id d.nodes n f in
      subst
        (λ x.
          (sources_in (arcs d) x done ≡ true) × Ordered (arcs d) (done ++ x ∷ []) (result_ids rs))
        (sym e)
        (
          sources_executed passed ids id s done from g w,
          trace-Ordered (passed ++ id ∷ []) (done ++ id ∷ []) (next passed ids id s)
              (execute-Supplied passed ids id s done from g) t,
        )
  trace-Ordered {from} passed done s g (chooses {variables} {id} {ids} {rs} w n f c target sel t) =
      let e = found_id id d.nodes n f in
      let (_, a) =
        target_arc d id target n f c v.conditions (selected_target-member n variables target sel) in
      subst
        (λ x.
          (sources_in (arcs d) x done ≡ true) × Ordered (arcs d) (done ++ x ∷ []) (result_ids rs))
        (sym e)
        (
          sources_executed passed ids id s done from g w,
          trace-Ordered (passed ++ id ∷ []) (done ++ id ∷ []) (next passed ids id s)
              (choose-Supplied passed ids id s done target a) t,
        )
  trace-Ordered passed done s g (cuts w n f e) = tt
  trace-Ordered {from} passed done s g (fails {id} {ids} w n f e _) =
      (rw (found_id id d.nodes n f) (sources_executed passed ids id s done from g w), tt)

  trace-Distinct :
      {from : Option String} {left : List String} {rs : List NodeResult} {stop : Stop}
      {variables : Variables} {out output : Option Text}
      → Distinct left
      → Trace node_executors dumps d from variables out left rs stop output
      → Distinct (result_ids rs)
  trace-Distinct o ends = tt
  trace-Distinct o (skips w t) = trace-Distinct o.1 t
  trace-Distinct o (executes {id} w n f c _ _ _ t) =
      (ground (arith, within n.id t, o, found_id id d.nodes n f), trace-Distinct o.1 t)
  trace-Distinct o (chooses {id} w n f c target s t) =
      (ground (arith, within n.id t, o, found_id id d.nodes n f), trace-Distinct o.1 t)
  trace-Distinct o (cuts w n f e) = tt
  trace-Distinct o (fails w n f e _) = (refl, tt)

-- In a run of an accepted definition that returns, no node has two results, and each that has one
-- was executed behind all the nodes from which an arc, an edge or a condition branch, leads to it.
pub sources_come_first :
    (node_executors : NodeType → Option NodeExecutor) (dumps : Variables → Text)
    (d : WorkflowDefinition) (inputs : Variables) (x : WorkflowRunResult)
    → validate_definition d ≡ ok tt
    → run node_executors dumps d inputs ≡ returns x
    → Distinct (result_ids x.node_results) × Ordered (arcs d) [] (result_ids x.node_results)
sources_come_first node_executors dumps d inputs x h e =
    let (order, v) = validate_definition-Validated d h in
    let (once, same, sorted) = (topological_order_lem d v.once v.edges).0 order v.sorted in
    let (order', found, ending) = run_lem node_executors dumps d inputs h in
    let eq : order' ≡ order = ground (arith, found, v.sorted) in
    by_end order v once same sorted
      (subst
        (λ o.
          Ends node_executors dumps d [] none (input_variables node_executors dumps d inputs inputs)
            none order o)
        e
        (subst
          (λ ids.
            Ends node_executors dumps d [] none
              (input_variables node_executors dumps d inputs inputs) none ids
              (run node_executors dumps d inputs))
          eq ending))
      refl
  where
    by_end :
        (order : List String)
        → Validated d order
        → Distinct order
        → ((v : String) → member v order ≡ member v (node_ids d.nodes))
        → Ordered (arcs d) [] order
        → {o : Outcome}
        → Ends node_executors dumps d [] none
            (input_variables node_executors dumps d inputs inputs)
            none
            order
            o
        → o ≡ returns x
        → Distinct (result_ids x.node_results) × Ordered (arcs d) [] (result_ids x.node_results)
    by_end order v once same sorted (cancels rs t) e = cc
    by_end order v once same sorted (returns_trace y rs f t _) e =
        let g : x.node_results ≡ rs = ground (arith, f, e) in
        rw g (
          trace-Distinct node_executors dumps d order v once t,
          trace-Ordered node_executors dumps d order v [] []
              (record { sorted = sorted; once = once; nodes = λ z m. ground (arith, m, same z) })
              (λ z y l r m. inr (
                ground (
                  arith,
                  same y,
                  sources_are_nodes (node_ids d.nodes) (arcs d) y z (arcs_join d v.edges) m,
                ),
                tt,
              ))
              t,
        )
