-- ===== src/Workflow/Graph.antt =====
-- A workflow definition (app/workflows/engine/models.py). A node's config is kept by what the engine
-- reads of it: the branches of a condition (`none` is the condition of a default branch), the
-- template of an output (`none` where it is missing or no text), and the other texts that stand
-- anywhere in it. Branches that are no objects, or whose target or condition is no text, are not
-- represented.
use ai_platform_mini.Prelude.{
  String, Bool, true, false, Option, List, [], ◌∷◌, ◌++◌, Text, if◌then◌else◌, member,
}

pub data NodeType : Type 0 where
  input llm knowledge tool code condition agent output : NodeType

pub record Branch : Type 0 where
  pub condition : Option Text
  pub target : String

pub record WorkflowNode : Type 0 where
  pub id : String
  pub type : NodeType
  pub branches : List Branch
  pub output_template : Option Text
  pub texts : List Text

pub record WorkflowEdge : Type 0 where
  pub from_node : String
  pub to_node : String

pub record WorkflowDefinition : Type 0 where
  pub nodes : List WorkflowNode
  pub edges : List WorkflowEdge

abbrev pub is_condition : NodeType → Bool
is_condition NodeType.condition = true
is_condition _ = false

abbrev pub is_input : NodeType → Bool
is_input NodeType.input = true
is_input _ = false

abbrev pub is_output : NodeType → Bool
is_output NodeType.output = true
is_output _ = false

abbrev pub node_ids : List WorkflowNode → List String
node_ids [] = []
node_ids (n ∷ ns) = n.id ∷ node_ids ns

-- The arcs that `adjacency` and `in_degree` are made of, in order: the edges, and then the branch
-- targets of the condition nodes, as far as they are nodes.
abbrev pub branch_arcs : List String → String → List Branch → List WorkflowEdge
branch_arcs ids node_id [] = []
branch_arcs ids node_id (b ∷ bs) =
    let rest = branch_arcs ids node_id bs in
    if member b.target ids then record { from_node = node_id; to_node = b.target } ∷ rest else rest

abbrev pub condition_arcs : List String → List WorkflowNode → List WorkflowEdge
condition_arcs ids [] = []
condition_arcs ids (n ∷ ns) =
    let rest = condition_arcs ids ns in
    if is_condition n.type then branch_arcs ids n.id n.branches ++ rest else rest

unfoldable pub arcs : WorkflowDefinition → List WorkflowEdge
arcs d = d.edges ++ condition_arcs (node_ids d.nodes) d.nodes
