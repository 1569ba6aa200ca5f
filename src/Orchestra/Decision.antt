-- ===== src/Orchestra/Decision.antt =====
-- app/multi_agent/decision_factory.py: a canvas graph becomes the subtasks of a decision. The JSON has
-- the shape that the code expects; the tests for other shapes are left out. A set of ids is a list
-- without repetitions.
use Prim.Native.Nat.{Ordering}
use Prim.Native.String.{compare}
use ai_platform_mini.Prelude.{
  ℕ, zero, suc, String, Bool, true, false, not, none, some, List, [], ◌∷◌, ◌++◌, Text, length, leb,
  member, str_eq, if◌then◌else◌,
}
use ai_platform_mini.Prelude.Dict.{Dict, get, put}
use ai_platform_mini.Prelude.Results.{
  Result, ok, raised, value_error, runtime_error, ◌>>=◌, ◌>>◌, require,
}
use ai_platform_mini.Orchestra.Models.{AgentRole, Subtask, is_empty}
use ai_platform_mini.Orchestra.Execute.{keys}

pub record CanvasNode : Type 0 where
  pub id : String
  pub role : String
  pub description : Text

pub record CanvasEdge : Type 0 where
  pub source : String
  pub target : String

abbrev pub max_canvas_nodes : ℕ
max_canvas_nodes = 20

-- `AgentRole(role_str)`, and CUSTOM for another text
unfoldable pub role_of : String → AgentRole
role_of s =
    if str_eq s "research"
    then AgentRole.research
    else (if str_eq s "writer"
        then AgentRole.writer
        else (if str_eq s "reviewer" then AgentRole.reviewer else AgentRole.custom))

abbrev pub DependsMap : Type 0
DependsMap = Dict (List String)

-- `depends_map.get(node, set())`
abbrev pub dependencies : DependsMap → String → List String
dependencies m id = elim (get id m) [ none ↦ [] | some deps ↦ deps ]

-- `{node["id"]: set() for node in raw_nodes}`
unfoldable pub no_dependencies : List CanvasNode → DependsMap → DependsMap
no_dependencies [] m = m
no_dependencies (n ∷ ns) m = no_dependencies ns (put n.id [] m)

abbrev pub add : String → List String → List String
add x xs = if member x xs then xs else x ∷ xs

unfoldable pub add_edges : List CanvasEdge → DependsMap → Result DependsMap
add_edges [] m = ok m
add_edges (e ∷ es) m = require (member e.source (keys m)) value_error >>= λ _.
    require (member e.target (keys m)) value_error >>= λ _.
    add_edges es (put e.target (add e.source (dependencies m e.target)) m)

-- `visit`, for each node of a list. `visited` lists the nodes in the order in which they are left.
-- Fuel for the depth of the recursion; Python's limit of it raises a RuntimeError, too.
unfoldable pub visit :
    DependsMap → ℕ → List String → List String → List String → Result (List String)
visit m zero xs in_stack visited = raised runtime_error
visit m (suc fuel) [] in_stack visited = ok visited
visit m (suc fuel) (x ∷ xs) in_stack visited = elim (member x in_stack) [
  | true ↦ raised value_error
  | false ↦ elim (member x visited) [
    | true ↦ visit m (suc fuel) xs in_stack visited
    | false ↦ visit m fuel (dependencies m x) (x ∷ in_stack) visited >>= λ below.
        visit m (suc fuel) xs in_stack (below ++ x ∷ [])
  ]
]

unfoldable pub validate_acyclic : DependsMap → Result (List String)
unfolding visit
validate_acyclic m = visit m (suc (length (keys m))) (keys m) [] []

-- `sorted` of a set of ids
abbrev pub before : String → String → Bool
before a b = elim (compare a b) [ Ordering.gt ↦ false | _ ↦ true ]

unfoldable pub insert_id : String → List String → List String
insert_id x [] = x ∷ []
insert_id x (y ∷ ys) = let rest = insert_id x ys in if before x y then x ∷ y ∷ ys else y ∷ rest

unfoldable pub sorted_ids : List String → List String
unfolding insert_id
sorted_ids [] = []
sorted_ids (x ∷ xs) = insert_id x (sorted_ids xs)

abbrev pub subtask_of : DependsMap → CanvasNode → Subtask
subtask_of m n = record {
  id = n.id;
  description = n.description;
  agent_role = role_of n.role;
  depends_on = sorted_ids (dependencies m n.id);
  input_template = [];
}

unfoldable pub subtasks_of : DependsMap → List CanvasNode → Result (List Subtask)
unfolding role_of sorted_ids
subtasks_of m [] = ok []
subtasks_of m (n ∷ ns) = require (not (str_eq n.id "")) value_error >>= λ _.
    subtasks_of m ns >>= λ rest. ok (subtask_of m n ∷ rest)

unfoldable pub from_dag : List CanvasNode → List CanvasEdge → Result (List Subtask)
unfolding no_dependencies add_edges validate_acyclic subtasks_of
from_dag nodes edges = do
  require (not (is_empty nodes)) value_error
  require (leb (length nodes) max_canvas_nodes) value_error
  depends_map ← add_edges edges (no_dependencies nodes [])
  order ← validate_acyclic depends_map
  subtasks_of depends_map nodes
