-- ===== src/Designer/Builder.antt =====
-- services/integration/workflow_designer/graph_builder.py: `build_graph`, from a layout to the runtime
-- shape. A warning is a constructor with what its text names.
use vision_virtual_intellige.Prelude.{
  String, ◌==◌, not, Option, none, some, List, [], ◌∷◌, ◌++◌, map, if◌then◌else◌, contains,
  is_empty, Dict,
}
use vision_virtual_intellige.Designer.Models.{
  node_type_value, DesignerNode, DesignerEdge, WorkflowLayout,
}
use vision_virtual_intellige.Designer.Paste.{node_ids}

pub data BuildWarning : Type 0 where
  source_missing target_missing : String → String → BuildWarning
  entry_missing : String → BuildWarning
  no_entry : BuildWarning

-- An entry of `nodes`.
pub record GraphNode (V : Type 0) : Type 0 where
  pub id : String
  pub node_type : String
  pub config : Dict V
  pub label : String

-- An entry of `edges`; `condition` is absent where the source leaves the key out.
pub record GraphEdge : Type 0 where
  pub id : String
  pub source : String
  pub target : String
  pub condition : Option String

pub record GraphBuildResult (V : Type 0) : Type 0 where
  pub workflow_name : String
  pub nodes : List (GraphNode V)
  pub edges : List GraphEdge
  pub entry_point : Option String
  pub warnings : List BuildWarning

-- `if e.condition:`, for a condition that may be None or empty
abbrev pub set_condition : Option String → Option String
set_condition none = none
set_condition (some condition) = if condition == "" then none else some condition

abbrev pub edge_entry : DesignerEdge → GraphEdge
edge_entry e = record {
  id = e.id;
  source = e.source;
  target = e.target;
  condition = set_condition e.condition;
}

-- The `for e in layout.edges` loop, on the edges and the warnings.
unfoldable pub build_edges : List String → List DesignerEdge → List GraphEdge × List BuildWarning
build_edges ids [] = ([], [])
build_edges ids (e ∷ es) =
    let rest = build_edges ids es in
    if not (contains e.source ids)
    then (rest.0, BuildWarning.source_missing e.id e.source ∷ rest.1)
    else if not (contains e.target ids)
    then (rest.0, BuildWarning.target_missing e.id e.target ∷ rest.1)
    else (edge_entry e ∷ rest.0, rest.1)

-- The entry point and its warning.
unfoldable pub build_entry : List String → Option String → Option String × List BuildWarning
build_entry ids none = (none, if is_empty ids then [] else BuildWarning.no_entry ∷ [])
build_entry ids (some entry) =
    if not (contains entry ids)
    then (none, BuildWarning.entry_missing entry ∷ [])
    else (some entry, [])

module _ {F V : Type 0} where
  abbrev pub node_entry : DesignerNode F V → GraphNode V
  node_entry n = record {
    id = n.id;
    node_type = node_type_value n.node_type;
    config = n.config;
    label = n.label;
  }

  unfoldable pub build_graph : WorkflowLayout F V → GraphBuildResult V
  build_graph layout =
      let ids = node_ids layout.nodes in
      let (edges, dropped) = build_edges ids layout.edges in
      let (entry_point, unstarted) = build_entry ids layout.entry_node_id in
      record {
        workflow_name = layout.workflow_name;
        nodes = map node_entry layout.nodes;
        edges = edges;
        entry_point = entry_point;
        warnings = dropped ++ unstarted;
      }
