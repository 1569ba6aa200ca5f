-- ===== src/Workflow/Chosen.antt =====
-- The target that a condition chooses (app/workflows/engine/validation.py, executor.py): in a
-- definition that is accepted it is a node, and an arc leads to it.
use ai_platform_mini.Prelude.{
  ◌≡◌, refl, sym, subst, String, Bool, true, false, not, ◌||◌, some, List, [], ◌∷◌, ◌++◌, keep,
  str_eq, eq_iff, eq_refl, arith, Bool-cases, Option-cases, inl, inr, member, All,
}
use ai_platform_mini.Prelude.Results.{ok, value_error, require, >>-eq-ok}
use ai_platform_mini.Workflow.Graph.{
  Branch, WorkflowNode, WorkflowEdge, WorkflowDefinition, is_condition, node_ids, branch_arcs,
  condition_arcs, arcs,
}
use ai_platform_mini.Workflow.Order.{targets}
use ai_platform_mini.Workflow.Engine.{find_node}
use ai_platform_mini.Workflow.Validation.{
  is_empty, is_valid_condition, validate_branches, validate_condition_node,
}
use ai_platform_mini.Workflow.Trace.{branch_targets}

targets-append :
    (x y : String) (as_ bs : List WorkflowEdge)
    → member x (targets y (as_ ++ bs)) ≡ member x (targets y as_) || member x (targets y bs)
targets-append x y [] bs = refl
targets-append x y (a ∷ as_) bs = ground (arith, targets-append x y as_ bs)

branch_arc :
    (ids : List String) (id t : String) (bs : List Branch)
    → member t (branch_targets bs) ≡ true
    → member t ids ≡ true
    → member t (targets id (branch_arcs ids id bs)) ≡ true
branch_arc ids id t [] m k = cc
branch_arc ids id t (b ∷ bs) m k =
    ground (arith, m, k, branch_arc ids id t bs, eq_iff b.target t, eq_refl id)

condition_arc :
    (ids : List String) (id t : String) (ns : List WorkflowNode) (n : WorkflowNode)
    → find_node id ns ≡ some n
    → is_condition n.type ≡ true
    → member t (branch_targets n.branches) ≡ true
    → member t ids ≡ true
    → member t (targets id (condition_arcs ids ns)) ≡ true
unfolding find_node
condition_arc ids id t [] n f c m k = cc
condition_arc ids id t (x ∷ ns) n f c m k = elim (Bool-cases (str_eq x.id id)) [
  | inl e ↦ ground (
    arith,
    f,
    c,
    m,
    k,
    e,
    eq_iff x.id id,
    branch_arc ids id t x.branches,
    targets-append t id (branch_arcs ids x.id x.branches) (condition_arcs ids ns),
  )
  | inr e ↦ ground (
    arith,
    e,
    condition_arc ids id t ns n (ground (arith, f, e)) c m k,
    targets-append t id (branch_arcs ids x.id x.branches) (condition_arcs ids ns),
  )
]

first :
    (ids : List String) (seen : Bool) (b : Branch) (bs : List Branch)
    → validate_branches ids seen (b ∷ bs) ≡ ok tt
    → (member b.target ids ≡ true) × (seen' : Bool) × (validate_branches ids seen' bs ≡ ok tt)
unfolding validate_branches
first ids seen b bs h = elim (Bool-cases (member b.target ids)) [
  | inr e ↦ ground (arith, h, e)
  | inl e ↦ elim (Option-cases b.condition) [
    | inl f ↦ (
      e,
      true,
      (>>-eq-ok (require (not seen) value_error) (validate_branches ids true bs)
          (rw (e, f) at h)).1,
    )
    | inr (c, f) ↦ (
      e,
      seen,
      (>>-eq-ok (require (is_valid_condition c) value_error) (validate_branches ids seen bs)
          (rw (e, f) at h)).1,
    )
  ]
]

branch_nodes :
    (ids : List String) (seen : Bool) (bs : List Branch) (t : String)
    → validate_branches ids seen bs ≡ ok tt
    → member t (branch_targets bs) ≡ true
    → member t ids ≡ true
branch_nodes ids seen [] t h m = cc
branch_nodes ids seen (b ∷ bs) t h m =
    let (node, seen', rest) = first ids seen b bs h in
    elim (Bool-cases (str_eq b.target t)) [
      | inl e ↦ ground (arith, node, e, eq_iff b.target t)
      | inr e ↦ branch_nodes ids seen' bs t rest (ground (arith, m, e))
    ]

abbrev Checked : List String → List WorkflowNode → Type 0
Checked ids ns =
    All (λ n. validate_condition_node ids n ≡ ok tt) (keep (λ n. is_condition n.type) ns)

kept :
    (ids : List String) (x : WorkflowNode) (ns : List WorkflowNode)
    → is_condition x.type ≡ true
    → Checked ids (x ∷ ns)
    → (validate_condition_node ids x ≡ ok tt) × Checked ids ns
kept ids x ns k v = rw k at v

dropped :
    (ids : List String) (x : WorkflowNode) (ns : List WorkflowNode)
    → is_condition x.type ≡ false
    → Checked ids (x ∷ ns)
    → Checked ids ns
dropped ids x ns k v = rw k at v

target_node :
    (ids : List String) (id t : String) (ns : List WorkflowNode) (n : WorkflowNode)
    → find_node id ns ≡ some n
    → is_condition n.type ≡ true
    → All (λ n. validate_condition_node ids n ≡ ok tt) (keep (λ n. is_condition n.type) ns)
    → member t (branch_targets n.branches) ≡ true
    → member t ids ≡ true
unfolding find_node validate_condition_node
target_node ids id t [] n f c v m = cc
target_node ids id t (x ∷ ns) n f c v m = elim (Bool-cases (str_eq x.id id)) [
  | inl e ↦
      let same : x ≡ n = ground (arith, f, e) in
      let here = subst (λ (x : WorkflowNode). is_condition x.type ≡ true) (sym same) c in
      let checked = kept ids x ns here v in
      branch_nodes ids false x.branches t
        (>>-eq-ok (require (not (is_empty x.branches)) value_error)
          (validate_branches ids false x.branches) checked.0).1
        (subst (λ (x : WorkflowNode). member t (branch_targets x.branches) ≡ true) (sym same) m)
  | inr e ↦ elim (Bool-cases (is_condition x.type)) [
    | inl k ↦ target_node ids id t ns n (ground (arith, f, e)) c (kept ids x ns k v).1 m
    | inr k ↦ target_node ids id t ns n (ground (arith, f, e)) c (dropped ids x ns k v) m
  ]
]

-- The chosen target is a node, and an arc leads to it from the condition.
pub target_arc :
    (d : WorkflowDefinition) (id t : String) (n : WorkflowNode)
    → find_node id d.nodes ≡ some n
    → is_condition n.type ≡ true
    → All
        (λ n. validate_condition_node (node_ids d.nodes) n ≡ ok tt)
        (keep (λ n. is_condition n.type) d.nodes)
    → member t (branch_targets n.branches) ≡ true
    → (member t (node_ids d.nodes) ≡ true) × (member t (targets id (arcs d)) ≡ true)
unfolding arcs
target_arc d id t n f c v m =
    let ids = node_ids d.nodes in
    let node = target_node ids id t d.nodes n f c v m in
    (
      node,
      ground (
        arith,
        condition_arc ids id t d.nodes n f c m node,
        targets-append t id d.edges (condition_arcs ids d.nodes),
      ),
    )
