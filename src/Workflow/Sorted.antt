-- ===== src/Workflow/Sorted.antt =====
-- What `topological_order` returns.
use ai_platform_mini.Prelude.{
  ℕ, zero, suc, ◌<◌, ◌≡◌, refl, String, Bool, true, false, not, ◌&&◌, ◌||◌, none, some, List, [],
  ◌∷◌, ◌++◌, length, keep, all, any, str_eq, eq_iff, eq_refl, arith, ◌==◌, Bool-cases, inl, inr,
  subst, member, Distinct, member-keep, Distinct-keep, length-le,
}
use ai_platform_mini.Workflow.Graph.{
  WorkflowDefinition, WorkflowNode, WorkflowEdge, Branch, node_ids, branch_arcs, condition_arcs,
  arcs,
}
use ai_platform_mini.Workflow.Order.{degree, zeros, count_arcs, ordered_ids, topological_order}
use ai_platform_mini.Workflow.Degrees.{
  source_outside, into_from_none, degree-zeros, degree-count_arcs,
}
use ai_platform_mini.Workflow.Kahn.{Ordered, Final, kahn-Final}

-- Both ends of an arc are nodes.
abbrev pub joins : List String → WorkflowEdge → Bool
joins ids a = member a.from_node ids && member a.to_node ids

all-append :
    (ids : List String) (xs ys : List WorkflowEdge)
    → all (joins ids) (xs ++ ys) ≡ all (joins ids) xs && all (joins ids) ys
all-append ids [] ys = refl
all-append ids (x ∷ xs) ys = ground (arith, all-append ids xs ys)

branch_arcs_join :
    (ids : List String) (id : String) (bs : List Branch)
    → member id ids ≡ true
    → all (joins ids) (branch_arcs ids id bs) ≡ true
branch_arcs_join ids id [] m = refl
branch_arcs_join ids id (b ∷ bs) m = ground (arith, branch_arcs_join ids id bs m, m)

condition_arcs_join :
    (ids : List String) (ns : List WorkflowNode)
    → ((x : String) → member x (node_ids ns) ≡ true → member x ids ≡ true)
    → all (joins ids) (condition_arcs ids ns) ≡ true
condition_arcs_join ids [] h = refl
condition_arcs_join ids (n ∷ ns) h = ground (
  arith,
  condition_arcs_join ids ns (λ x m. h x (ground (arith, m))),
  branch_arcs_join ids n.id n.branches (h n.id (ground (arith, eq_refl n.id))),
  all-append ids (branch_arcs ids n.id n.branches) (condition_arcs ids ns),
)

pub arcs_join :
    (d : WorkflowDefinition)
    → all (joins (node_ids d.nodes)) d.edges ≡ true
    → all (joins (node_ids d.nodes)) (arcs d) ≡ true
unfolding arcs
arcs_join d h =
    let ids = node_ids d.nodes in
    ground (
      arith,
      h,
      condition_arcs_join ids d.nodes (λ x m. m),
      all-append ids d.edges (condition_arcs ids d.nodes),
    )

targets_join :
    (ids : List String) (es : List WorkflowEdge)
    → all (joins ids) es ≡ true
    → all (λ a. member a.to_node ids) es ≡ true
targets_join ids [] h = refl
targets_join ids (a ∷ es) h = ground (arith, targets_join ids es)

length-node_ids : (ns : List WorkflowNode) → length (node_ids ns) ≡ length ns
length-node_ids [] = refl
length-node_ids (n ∷ ns) = ground (arith, length-node_ids ns)

ordered_ids-Final :
    (ids : List String) (es : List WorkflowEdge)
    → Distinct ids
    → all (joins ids) es ≡ true
    → Final es ids (ordered_ids ids es)
unfolding ordered_ids
ordered_ids-Final ids es once ends =
    let deg = count_arcs es (zeros ids) in
    kahn-Final es ids (length ids) (keep (λ id. degree deg id == 0) ids) [] deg
      (targets_join ids es ends) (omega arith)
      (record {
        degrees = λ v.
            omega
              (arith, degree-count_arcs es (zeros ids) v, degree-zeros ids v, into_from_none v es);
        zero_degree = λ v m. ground (arith, m, member-keep (λ id. degree deg id == 0) v ids);
        nodes = λ v m. ground (arith, m, member-keep (λ id. degree deg id == 0) v ids);
        once = tt;
        queued = Distinct-keep (λ id. degree deg id == 0) ids once;
        apart = λ v. refl;
        sorted = tt;
      })

-- Ids that do not repeat and are as many as those of a list that they all stand in are all of it.
all_of_it :
    (xs ys : List String) (v : String)
    → Distinct xs
    → ((x : String) → member x xs ≡ true → member x ys ≡ true)
    → length xs ≡ length ys
    → member v ys ≡ true
    → member v xs ≡ true
all_of_it xs ys v d h e m = elim (Bool-cases (member v xs)) [
  | inl found ↦ found
  | inr out ↦ absurd (
      omega (
        arith,
        e,
        length-le (v ∷ xs) ys (out, d)
            (λ (x : String) (k : str_eq v x || member x xs ≡ true).
              ground (arith, k, h x, eq_iff v x, m)),
      ))
]

-- Nodes, at least one, each of which has an arc from another of them (or from itself): a cycle.
pub record Stuck (d : WorkflowDefinition) (ids : List String) : Type 0 where
  pub some_id : 0 < length ids
  pub nodes : (v : String) → member v ids ≡ true → member v (node_ids d.nodes) ≡ true
  pub preceded :
      (v : String)
      → member v ids ≡ true
      → any (λ a. str_eq a.to_node v && member a.from_node ids) (arcs d) ≡ true

outside_within :
    (ids ordered : List String) (es : List WorkflowEdge) (v : String)
    → all (joins ids) es ≡ true
    → source_outside es v ordered ≡ true
    → any
        (λ a. str_eq a.to_node v && member a.from_node (keep (λ x. not (member x ordered)) ids))
        es
      ≡ true
outside_within ids ordered [] v j h = cc
outside_within ids ordered (a ∷ es) v j h = ground (
  arith,
  outside_within ids ordered es v,
  member-keep (λ x. not (member x ordered)) a.from_node ids,
)

no_member : (x : String) (xs : List String) → length xs ≡ 0 → member x xs ≡ false
no_member x [] h = refl
no_member x (y ∷ ys) h = absurd (omega arith)

some_left :
    (xs ys : List String)
    → Distinct ys
    → length xs < length ys
    → 0 < length (keep (λ y. not (member y xs)) ys)
some_left xs ys d h = by_length (length (keep (λ y. not (member y xs)) ys)) refl
  where
    by_length :
        (n : ℕ)
        → length (keep (λ y. not (member y xs)) ys) ≡ n
        → 0 < length (keep (λ y. not (member y xs)) ys)
    by_length zero e = absurd (
        omega (
          arith,
          length-le ys xs d (λ (y : String) (m : member y ys ≡ true). ground (
            arith,
            m,
            member-keep (λ y. not (member y xs)) y ys,
            no_member y (keep (λ y. not (member y xs)) ys) e,
          )),
        ))
    by_length (suc n) e = omega arith

returned :
    (d : WorkflowDefinition) (ordered : List String)
    → topological_order d ≡ some ordered
    → (ordered_ids (node_ids d.nodes) (arcs d) ≡ ordered) × (length ordered ≡ length d.nodes)
unfolding topological_order
returned d ordered h = (ground arith, ground arith)

-- For a graph whose node ids do not repeat and whose edges join nodes: an order that is returned
-- names every node once, and each behind the sources of all its arcs, edges and condition
-- branches alike; and if none is returned, the graph has a cycle: there are nodes each of which has
-- an arc from one of them.
pub topological_order_lem :
    (d : WorkflowDefinition)
    → Distinct (node_ids d.nodes)
    → all (joins (node_ids d.nodes)) d.edges ≡ true
    → ((ordered : List String)
        → topological_order d ≡ some ordered
        → Distinct ordered
          × ((v : String) → member v ordered ≡ member v (node_ids d.nodes))
          × Ordered (arcs d) [] ordered)
      × (topological_order d ≡ none → (ids : List String) × Stuck d ids)
topological_order_lem d once edges = (λ o h. found o h, λ h. stuck h)
  where
    ends : all (joins (node_ids d.nodes)) (arcs d) ≡ true
    ends = arcs_join d edges

    final : Final (arcs d) (node_ids d.nodes) (ordered_ids (node_ids d.nodes) (arcs d))
    final = ordered_ids-Final (node_ids d.nodes) (arcs d) once ends

    found :
        (ordered : List String)
        → topological_order d ≡ some ordered
        → Distinct ordered
          × ((v : String) → member v ordered ≡ member v (node_ids d.nodes))
          × Ordered (arcs d) [] ordered
    found ordered h =
        let (e, len) = returned d ordered h in
        let f = subst (Final (arcs d) (node_ids d.nodes)) e final in
        let len' : length ordered ≡ length (node_ids d.nodes) =
          omega (arith, len, length-node_ids d.nodes) in
        (
          f.once,
          λ v.
              ground (arith, f.nodes v, all_of_it ordered (node_ids d.nodes) v f.once f.nodes len'),
          f.sorted,
        )

    stuck : topological_order d ≡ none → (ids : List String) × Stuck d ids
    stuck h =
        let ids = node_ids d.nodes in
        let o = ordered_ids ids (arcs d) in
        (
          keep (λ x. not (member x o)) ids,
          record {
            some_id = some_left o ids once (
                unfold topological_order in
                ground (arith, h, length-node_ids d.nodes, length-le o ids final.once final.nodes));
            nodes = λ v m. ground (arith, m, member-keep (λ x. not (member x o)) v ids);
            preceded = λ v m.
                let k = member-keep (λ x. not (member x o)) v ids in
                outside_within ids o (arcs d) v ends
                  (final.left_out v (ground (arith, m, k)) (ground (arith, m, k)));
          },
        )
