-- ===== src/Workflow/Validated.antt =====
-- What a definition has that `validate_definition` (app/workflows/engine/validation.py) accepts.
use ai_platform_mini.Prelude.{
  ◌≤◌, ◌≡◌, refl, String, true, Option, none, some, List, [], ◌∷◌, length, keep, all, any, arith,
  leb, ◌==◌, is_some, Distinct, All,
}
use ai_platform_mini.Prelude.Results.{
  ok, value_error, require, for_each, ◌>>◌, >>-eq-ok, value_of_call, require-eq-ok, for_each-eq-ok,
}
use ai_platform_mini.Workflow.Graph.{
  WorkflowNode, WorkflowEdge, WorkflowDefinition, is_condition, is_input, is_output, node_ids, arcs,
}
use ai_platform_mini.Workflow.Order.{targets, topological_order}
use ai_platform_mini.Workflow.Sorted.{joins}
use ai_platform_mini.Workflow.Validation.{
  found, validate_edge, distinct, incoming, validate_condition_node, validate_template_references,
  validate_definition,
}

pub record Validated (d : WorkflowDefinition) (order : List String) : Type 0 where
  pub once : Distinct (node_ids d.nodes)
  pub edges : all (joins (node_ids d.nodes)) d.edges ≡ true
  pub one_source : All (λ (n : WorkflowNode). length (incoming n.id (arcs d)) ≤ 1) d.nodes
  pub sorted : topological_order d ≡ some order
  pub conditions :
      All
        (λ n. validate_condition_node (node_ids d.nodes) n ≡ ok tt)
        (keep (λ n. is_condition n.type) d.nodes)
  pub references : All (λ n. validate_template_references order n ≡ ok tt) d.nodes

distinct-Distinct : (xs : List String) → distinct xs ≡ true → Distinct xs
distinct-Distinct [] h = tt
distinct-Distinct (x ∷ xs) h = (ground (arith, h), distinct-Distinct xs (ground (arith, h)))

joined : (ids : List String) (e : WorkflowEdge) → validate_edge ids e ≡ ok tt → joins ids e ≡ true
unfolding validate_edge
joined ids e h = ground (arith, h)

all_joined :
    (ids : List String) (es : List WorkflowEdge)
    → All (λ e. validate_edge ids e ≡ ok tt) es
    → all (joins ids) es ≡ true
all_joined ids [] h = refl
all_joined ids (e ∷ es) h = ground (arith, joined ids e h.0, all_joined ids es h.1)

found-eq-ok {ℓ} : {A : Type ℓ} (o : Option A) {a : A} → found o ≡ ok a → o ≡ some a
found-eq-ok none h = cc
found-eq-ok (some a) h = cc

at_most_one :
    (as_ : List WorkflowEdge) (ns : List WorkflowNode)
    → All (λ n. require (leb (length (incoming n.id as_)) 1) value_error ≡ ok tt) ns
    → All (λ (n : WorkflowNode). length (incoming n.id as_) ≤ 1) ns
at_most_one as_ [] h = tt
at_most_one as_ (n ∷ ns) h = (ground (arith, h.0), at_most_one as_ ns h.1)

pub validate_definition-Validated :
    (d : WorkflowDefinition)
    → validate_definition d ≡ ok tt
    → (order : List String) × Validated d order
unfolding validate_definition
validate_definition-Validated d h =
    let ids = node_ids d.nodes in
    let (h1, k1) = >>-eq-ok (require (distinct ids) value_error) _ h in
    let (h2, k2) = >>-eq-ok (for_each (validate_edge ids) d.edges) _ k1 in
    let (_, k3) = >>-eq-ok (require (any (λ n. is_input n.type) d.nodes) value_error) _ k2 in
    let (_, k4) = >>-eq-ok (require (any (λ n. is_output n.type) d.nodes) value_error) _ k3 in
    let (_, k5) =
      >>-eq-ok
        (for_each (λ n. require (length (targets n.id d.edges) == 1) value_error)
          (keep (λ n. is_input n.type) d.nodes))
        _ k4 in
    let (h6, k6) =
      >>-eq-ok
        (for_each (λ n. require (leb (length (incoming n.id (arcs d))) 1) value_error) d.nodes) _
        k5 in
    let (_, k7) = >>-eq-ok (require (is_some (topological_order d)) value_error) _ k6 in
    let (order, h8, k8) =
      value_of_call (found (topological_order d))
        (λ order.
          for_each (validate_condition_node ids) (keep (λ n. is_condition n.type) d.nodes)
          >> for_each (validate_template_references order) d.nodes)
        k7 in
    let (h9, k9) =
      >>-eq-ok (for_each (validate_condition_node ids) (keep (λ n. is_condition n.type) d.nodes))
        (for_each (validate_template_references order) d.nodes) k8 in
    (
      order,
      record {
        once = distinct-Distinct ids (require-eq-ok (distinct ids) _ h1);
        edges = all_joined ids d.edges (for_each-eq-ok (validate_edge ids) _ h2);
        one_source = at_most_one (arcs d) d.nodes (
            for_each-eq-ok (λ n. require (leb (length (incoming n.id (arcs d))) 1) value_error) _
              h6);
        sorted = found-eq-ok (topological_order d) h8;
        conditions = for_each-eq-ok (validate_condition_node ids) _ h9;
        references = for_each-eq-ok (validate_template_references order) _ k9;
      },
    )
