-- ===== src/Orchestra/CanvasTests.antt =====
-- A canvas of three nodes, and one with a cycle.
use ai_platform_mini.Prelude.{
  ◌≡◌, ◌⊎◌, refl, String, true, false, none, some, List, [], ◌∷◌, codes, arith, eq_refl, eq_iff,
  member, All,
}
use ai_platform_mini.Prelude.Dict.{get, put}
use ai_platform_mini.Prelude.Results.{ok, raised, value_error}
use ai_platform_mini.Orchestra.Models.{
  AgentRole, TaskStatus, FailurePolicy, OrchestrationStatus, Subtask, SubtaskResult,
  OrchestrationConfig,
}
use ai_platform_mini.Orchestra.Dag.{World, TaskEnd}
use ai_platform_mini.Orchestra.Safety.{IsOrder}
use ai_platform_mini.Orchestra.Termination.{Waits}
use ai_platform_mini.Orchestra.Execute.{keys, execute, OrchestrationResult}
use ai_platform_mini.Orchestra.Decision.{
  CanvasNode, CanvasEdge, DependsMap, dependencies, no_dependencies, add_edges, validate_acyclic,
  visit, role_of, insert_id, sorted_ids, subtasks_of, from_dag,
}
use ai_platform_mini.Orchestra.Acyclic.{Needs, InOrder, validate_acyclic_lem}
use ai_platform_mini.Orchestra.Completes.{Undisturbed, canvas_completes}

abbrev node : String → String → CanvasNode
node id role = record { id = id; role = role; description = codes "d" }

abbrev edge : String → String → CanvasEdge
edge a b = record { source = a; target = b }

abbrev nodes : List CanvasNode
nodes = node "w" "writer" ∷ node "r" "research" ∷ node "x" "other" ∷ []

abbrev edges : List CanvasEdge
edges = edge "r" "w" ∷ edge "w" "x" ∷ edge "r" "x" ∷ []

abbrev subtask : String → AgentRole → List String → Subtask
subtask id role deps = record {
  id = id;
  description = codes "d";
  agent_role = role;
  depends_on = deps;
  input_template = [];
}

abbrev subtasks : List Subtask
subtasks =
    subtask "w" AgentRole.writer ("r" ∷ [])
    ∷ subtask "r" AgentRole.research []
    ∷ subtask "x" AgentRole.custom ("r" ∷ "w" ∷ [])
    ∷ []

makes_subtasks : from_dag nodes edges ≡ ok subtasks
unfolding from_dag no_dependencies add_edges validate_acyclic visit subtasks_of role_of sorted_ids
    insert_id get put
makes_subtasks = refl

refuses_cycle : from_dag nodes (edge "x" "r" ∷ edges) ≡ raised value_error
unfolding from_dag no_dependencies add_edges validate_acyclic visit subtasks_of role_of sorted_ids
    insert_id get put
refuses_cycle = refl

abbrev answer : String → TaskEnd
answer id = TaskEnd.returned (record {
  task_id = id;
  status = TaskStatus.completed;
  output = codes "o";
  error = none;
  token_usage = 4;
})

abbrev all_end : List String → List (String × TaskEnd)
all_end [] = []
all_end (id ∷ ids) = (id, answer id) ∷ all_end ids

abbrev world : World
world = record {
  cancel_set = λ n. false;
  elapsed = λ n. n;
  order = λ n ids. ids;
  done = λ n ids. all_end ids;
}

abbrev config : OrchestrationConfig
config = record {
  max_concurrency = 2;
  failure_policy = FailurePolicy.skip;
  total_timeout = none;
  total_token_budget = none;
}

world-IsOrder : IsOrder world.order
world-IsOrder = record { members = λ n ids id. refl; distinct = λ n ids d. d }

world-Waits : Waits world
world-Waits n [] h = cc
world-Waits n (id ∷ ids) h = ground (arith, eq_refl id)

world-Undisturbed : Undisturbed world config
world-Undisturbed = record {
  not_cancelled = λ n. refl;
  no_timeout = refl;
  no_budget = refl;
  succeed = λ n ids. all_succeed ids;
}
  where
    all_succeed :
        (ids : List String)
        → All
            (λ (e : String × TaskEnd).
              (r : SubtaskResult) × (e.1 ≡ TaskEnd.returned r) × (r.status ≡ TaskStatus.completed))
            (all_end ids)
    all_succeed [] = tt
    all_succeed (id ∷ ids) = ((_, refl, refl), all_succeed ids)

canvas_completes_example :
    (r : OrchestrationResult) × (execute world config subtasks ≡ some r)
    × (r.status ≡ OrchestrationStatus.completed)
canvas_completes_example =
    canvas_completes nodes edges subtasks world config makes_subtasks (omega arith) world-IsOrder
      world-Waits world-Undisturbed

abbrev depends_map : DependsMap
depends_map = ("a", "b" ∷ []) ∷ ("b", []) ∷ []

dependencies_are_nodes :
    (x y : String)
    → member y (dependencies depends_map x) ≡ true
    → member y (keys depends_map) ≡ true
unfolding get
dependencies_are_nodes x y h = ground (arith, h, eq_iff "a" x, eq_iff "b" x, eq_iff "b" y)

validate_acyclic_lem_example :
    ((order : List String) × (validate_acyclic depends_map ≡ ok order)
      × InOrder (dependencies depends_map) [] order
      × ((x : String) → member x (keys depends_map) ≡ true → member x order ≡ true))
    ⊎ ((validate_acyclic depends_map ≡ raised value_error)
        × (x : String) × Needs (dependencies depends_map) x x)
validate_acyclic_lem_example = validate_acyclic_lem depends_map dependencies_are_nodes
