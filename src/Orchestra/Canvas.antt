-- ===== src/Orchestra/Canvas.antt =====
-- The decision that `from_dag` makes (app/multi_agent/decision_factory.py): its subtasks, and what they
-- depend on.
use ai_platform_mini.Prelude.{
  ◌≡◌, refl, sym, subst, ap, ◌∙◌, ◌⊎◌, inl, inr, String, Bool, true, false, not, ◌||◌, List, [],
  ◌∷◌, ◌++◌, length, all, leb, member, str_eq, eq_iff, arith, if◌then◌else◌, Bool-cases, All,
}
use ai_platform_mini.Prelude.Dict.{Dict, get, put, get-put}
use ai_platform_mini.Prelude.Results.{ok, value_error, require, ◌>>=◌, value_of_call, require-eq-ok}
use ai_platform_mini.Orchestra.Models.{Subtask, is_empty}
use ai_platform_mini.Orchestra.Dag.{depends_on}
use ai_platform_mini.Orchestra.Execute.{keys, task_map, task_map_of}
use ai_platform_mini.Orchestra.Outcome.{ids, member-put}
use ai_platform_mini.Orchestra.Decision.{
  CanvasNode, CanvasEdge, DependsMap, dependencies, no_dependencies, add, add_edges,
  validate_acyclic, before, insert_id, sorted_ids, subtask_of, subtasks_of, from_dag,
  max_canvas_nodes,
}
use ai_platform_mini.Orchestra.Acyclic.{InOrder, all_members, validate_acyclic_lem}

abbrev node_ids : List CanvasNode → List String
node_ids [] = []
node_ids (n ∷ ns) = n.id ∷ node_ids ns

abbrev Closed : DependsMap → Type 0
Closed m = (x y : String) → member y (dependencies m x) ≡ true → member y (keys m) ≡ true

no_dependencies-keys :
    (ns : List CanvasNode) (m : DependsMap) (x : String)
    → member x (keys (no_dependencies ns m)) ≡ member x (node_ids ns) || member x (keys m)
unfolding no_dependencies
no_dependencies-keys [] m x = refl
no_dependencies-keys (n ∷ ns) m x =
    ground (arith, no_dependencies-keys ns (put n.id [] m) x, member-put x n.id [] m)

dependencies-put :
    (k x : String) (deps : List String) (m : DependsMap)
    → dependencies (put k deps m) x ≡ (if str_eq k x then deps else dependencies m x)
dependencies-put k x deps m = ground (arith, get-put k x deps m)

no_dependencies-empty :
    (ns : List CanvasNode) (m : DependsMap) (x : String)
    → dependencies m x ≡ []
    → dependencies (no_dependencies ns m) x ≡ []
unfolding no_dependencies
no_dependencies-empty [] m x h = h
no_dependencies-empty (n ∷ ns) m x h =
    no_dependencies-empty ns (put n.id [] m) x (ground (arith, h, dependencies-put n.id x [] m))

member-add : (x y : String) (ys : List String) → member x (add y ys) ≡ str_eq y x || member x ys
member-add x y ys = ground (arith, eq_iff y x)

put-Closed :
    (s t : String) (m : DependsMap)
    → member s (keys m) ≡ true
    → Closed m
    → Closed (put t (add s (dependencies m t)) m)
put-Closed s t m k c x y h =
    let deps = add s (dependencies m t) in
    ground (
      arith,
      h,
      k,
      member-put y t deps m,
      dependencies-put t x deps m,
      member-add y s (dependencies m t),
      eq_iff s y,
      c x y,
      c t y,
    )

add_edges-Closed :
    (es : List CanvasEdge) (m m' : DependsMap)
    → Closed m
    → add_edges es m ≡ ok m'
    → Closed m'
      × ((x : String) → member x (keys m) ≡ true → member x (keys m') ≡ true)
      × ((x : String) → member x (keys m') ≡ true → member x (keys m) ≡ true)
unfolding add_edges
add_edges-Closed [] m m' c h =
    let e : m ≡ m' = ground (arith, h) in
    (
      subst Closed e c,
      λ x k. subst (λ d. member x (keys d) ≡ true) e k,
      λ x k. subst (λ d. member x (keys d) ≡ true) (sym e) k,
    )
add_edges-Closed (e ∷ es) m m' c h =
    let deps = add e.source (dependencies m e.target) in
    let (_, p, h1) = value_of_call (require (member e.source (keys m)) value_error) _ h in
    let (_, q, h2) = value_of_call (require (member e.target (keys m)) value_error) _ h1 in
    let source = require-eq-ok (member e.source (keys m)) value_error (ground (arith, p)) in
    let target = require-eq-ok (member e.target (keys m)) value_error (ground (arith, q)) in
    let (c', up, down) =
      add_edges-Closed es (put e.target deps m) m' (put-Closed e.source e.target m source c) h2 in
    (
      c',
      λ x k. up x (ground (arith, k, member-put x e.target deps m)),
      λ x k. ground (arith, down x k, member-put x e.target deps m, eq_iff e.target x, target),
    )

member-insert_id :
    (x y : String) (ys : List String) → member x (insert_id y ys) ≡ str_eq y x || member x ys
unfolding insert_id
member-insert_id x y [] = refl
member-insert_id x y (z ∷ ys) = elim (Bool-cases (before y z)) [
  | inl e ↦ rw e refl
  | inr e ↦ rw e (ground (arith, member-insert_id x y ys))
]

member-sorted_ids : (x : String) (xs : List String) → member x (sorted_ids xs) ≡ member x xs
unfolding sorted_ids
member-sorted_ids x [] = refl
member-sorted_ids x (y ∷ ys) =
    ground (arith, member-insert_id x y (sorted_ids ys), member-sorted_ids x ys)

abbrev Made : DependsMap → List CanvasNode → List Subtask → Type 0
Made m ns ts =
    (ids ts ≡ node_ids ns) × All (λ t. t.depends_on ≡ sorted_ids (dependencies m t.id)) ts

subtasks_of-Made :
    (m : DependsMap) (ns : List CanvasNode) (ts : List Subtask)
    → subtasks_of m ns ≡ ok ts
    → Made m ns ts
unfolding subtasks_of
subtasks_of-Made m [] ts h = let e : [] ≡ ts = ground (arith, h) in subst (Made m []) e (refl, tt)
subtasks_of-Made m (n ∷ ns) ts h =
    let (_, _, h1) = value_of_call (require (not (str_eq n.id "")) value_error) _ h in
    let (rest, p, q) = value_of_call (subtasks_of m ns) (λ rest. ok (subtask_of m n ∷ rest)) h1 in
    let (same, made) = subtasks_of-Made m ns rest p in
    let e : subtask_of m n ∷ rest ≡ ts = ground (arith, q) in
    subst (Made m (n ∷ ns)) e (ap (λ (l : List String). n.id ∷ l) same, (refl, made))

depends_on-task_map_of :
    (f : String → List String) (ts : List Subtask) (d : Dict Subtask) (id : String)
    → All (λ t. t.depends_on ≡ f t.id) ts
    → (member id (ids ts) ≡ true) ⊎ (depends_on d id ≡ f id)
    → depends_on (task_map_of ts d) id ≡ f id
unfolding task_map_of
depends_on-task_map_of f [] d id a (inl h) = cc
depends_on-task_map_of f [] d id a (inr h) = h
depends_on-task_map_of f (t ∷ ts) d id a h =
    depends_on-task_map_of f ts (put t.id t d) id a.1 (elim (Bool-cases (str_eq t.id id)) [
      | inl e ↦ inr (ground (arith, e, get-put t.id id t d) ∙ a.0 ∙ ap f ((eq_iff t.id id).0 e))
      | inr e ↦ elim h [
        | inl k ↦ inl (ground (arith, k, e))
        | inr k ↦ inr (ground (arith, e, get-put t.id id t d) ∙ k)
      ]
    ])

no_task :
    (ts : List Subtask) (d : Dict Subtask) (id : String)
    → member id (ids ts) ≡ false
    → depends_on (task_map_of ts d) id ≡ depends_on d id
unfolding task_map_of
no_task [] d id h = refl
no_task (t ∷ ts) d id h =
    no_task ts (put t.id t d) id (ground (arith, h)) ∙ ground (arith, h, get-put t.id id t d)

pub in_all :
    (p : String → Bool) (xs : List String) (y : String)
    → all p xs ≡ true
    → member y xs ≡ true
    → p y ≡ true
in_all p [] y h k = cc
in_all p (x ∷ xs) y h k = ground (arith, h, k, eq_iff x y, in_all p xs y)

InOrder-fewer :
    (f g : String → List String) (before xs : List String)
    → ((x y : String) → member y (g x) ≡ true → member y (f x) ≡ true)
    → InOrder f before xs
    → InOrder g before xs
InOrder-fewer f g before [] h o = tt
InOrder-fewer f g before (x ∷ xs) h o = (
  all_members (g x) before (λ y k. in_all (λ d. member d before) (f x) y o.0 (h x y k)),
  InOrder-fewer f g (before ++ x ∷ []) xs h o.1,
)

-- A decision whose subtasks can be done one behind the other.
pub record Doable (ts : List Subtask) (order : List String) : Type 0 where
  pub some_task : is_empty ts ≡ false
  pub sorted : InOrder (depends_on (task_map ts)) [] order
  pub whole : (id : String) → member id (ids ts) ≡ true → member id order ≡ true
  pub tasks :
      (id d : String) → member d (depends_on (task_map ts) id) ≡ true → member d (ids ts) ≡ true

same_members :
    (m : DependsMap) (ns : List CanvasNode) (ts : List Subtask) (id d : String)
    → Made m ns ts
    → member d (depends_on (task_map ts) id) ≡ true
    → (member id (ids ts) ≡ true) × (member d (dependencies m id) ≡ true)
unfolding get
same_members m ns ts id d made k = elim (Bool-cases (member id (ids ts))) [
  | inr out ↦ ground (arith, k, no_task ts [] id out)
  | inl task ↦ (
    task,
    ground (
      arith,
      k,
      depends_on-task_map_of (λ x. sorted_ids (dependencies m x)) ts [] id made.1 (inl task),
      member-sorted_ids d (dependencies m id),
    ),
  )
]

Doable-Made :
    (m : DependsMap) (ns : List CanvasNode) (ts : List Subtask) (order : List String)
    → Closed m
    → ((x : String) → member x (keys m) ≡ member x (node_ids ns))
    → InOrder (dependencies m) [] order
    → ((x : String) → member x (keys m) ≡ true → member x order ≡ true)
    → is_empty ns ≡ false
    → Made m ns ts
    → Doable ts order
Doable-Made m ns ts order closed same sorted whole busy made = record {
  some_task = by_ids ns ts busy made.0;
  sorted =
      InOrder-fewer (dependencies m) (depends_on (task_map ts)) [] order
        (λ x y k. (same_members m ns ts x y made k).1) sorted;
  whole = λ id k. whole id (ground (arith, same id, k, ap (member id) made.0));
  tasks = λ id d k.
      ground
        (arith, closed id d (same_members m ns ts id d made k).1, same d, ap (member d) made.0);
}
  where
    by_ids :
        (ns : List CanvasNode) (ts : List Subtask)
        → is_empty ns ≡ false
        → ids ts ≡ node_ids ns
        → is_empty ts ≡ false
    by_ids [] ts h e = cc
    by_ids (n ∷ ns) [] h e = cc
    by_ids (n ∷ ns) (t ∷ ts) h e = refl

-- The decision that is made of a canvas graph has a task, depends on tasks only, and its tasks can be
-- put in an order in which each stands behind all that it depends on.
pub from_dag-Doable :
    (nodes : List CanvasNode) (edges : List CanvasEdge) (ts : List Subtask)
    → from_dag nodes edges ≡ ok ts
    → (order : List String) × Doable ts order
unfolding from_dag get
from_dag-Doable nodes edges ts h =
    let start = no_dependencies nodes [] in
    let (_, p, h1) = value_of_call (require (not (is_empty nodes)) value_error) _ h in
    let (_, _, h2) =
      value_of_call (require (leb (length nodes) max_canvas_nodes) value_error) _ h1 in
    let (m, q, h3) =
      value_of_call (add_edges edges start)
        (λ m. validate_acyclic m >>= λ order. subtasks_of m nodes) h2 in
    let (order, r, h4) = value_of_call (validate_acyclic m) (λ order. subtasks_of m nodes) h3 in
    let (closed, up, down) =
      add_edges-Closed edges start m (λ x y k. cc (k, no_dependencies-empty nodes [] x refl)) q in
    let same = λ (x : String). no_dependencies-keys nodes [] x in
    elim (validate_acyclic_lem m closed) [
      | inr (f, _, _) ↦ cc (r, f)
      | inl (order', f, sorted, whole) ↦ (
        order',
        Doable-Made m nodes ts order' closed (λ x. ground (arith, up x, down x, same x)) sorted
            whole (ground (arith, require-eq-ok (not (is_empty nodes)) value_error p))
            (subtasks_of-Made m nodes ts h4),
      )
    ]
