-- ===== src/Designer/Models.antt =====
-- services/integration/workflow_designer/designer_models.py: the document, and the canvas around it.
-- `F` stands for the source's floats and `V` for the values of its untyped dictionaries.
use vision_virtual_intellige.Prelude.{String, Bool, Option, List, Dict}

pub data NodeType : Type 0 where
  agent decision conditional parallel join tool event human_approval : NodeType
  retry delay plugin custom : NodeType

-- `node_type.value`
abbrev pub node_type_value : NodeType → String
node_type_value NodeType.agent = "agent"
node_type_value NodeType.decision = "decision"
node_type_value NodeType.conditional = "conditional"
node_type_value NodeType.parallel = "parallel"
node_type_value NodeType.join = "join"
node_type_value NodeType.tool = "tool"
node_type_value NodeType.event = "event"
node_type_value NodeType.human_approval = "human_approval"
node_type_value NodeType.retry = "retry"
node_type_value NodeType.delay = "delay"
node_type_value NodeType.plugin = "plugin"
node_type_value NodeType.custom = "custom"

pub record DesignerNode (F V : Type 0) : Type 0 where
  pub id : String
  pub node_type : NodeType
  pub label : String
  pub x : F
  pub y : F
  pub color : Option String
  pub comment : Option String
  pub group_id : Option String
  pub config : Dict V
  pub plugin_id : Option String

pub record DesignerEdge : Type 0 where
  pub id : String
  pub source : String
  pub target : String
  pub label : String
  pub condition : Option String

pub record DesignerGroup : Type 0 where
  pub id : String
  pub label : String
  pub color : Option String
  pub node_ids : List String

pub record CanvasViewport (F : Type 0) : Type 0 where
  pub zoom : F
  pub pan_x : F
  pub pan_y : F

pub record WorkflowLayout (F V : Type 0) : Type 0 where
  pub workflow_name : String
  pub version : String
  pub nodes : List (DesignerNode F V)
  pub edges : List DesignerEdge
  pub groups : List DesignerGroup
  pub entry_node_id : Option String
  pub viewport : CanvasViewport F
  pub metadata : Dict V
  pub updated_at : String

pub record CanvasSelection : Type 0 where
  pub node_ids : List String
  pub edge_ids : List String
  pub group_ids : List String

pub record ClipboardPayload (F V : Type 0) : Type 0 where
  pub nodes : List (DesignerNode F V)
  pub edges : List DesignerEdge

pub record CanvasState (F V : Type 0) : Type 0 where
  pub layout : WorkflowLayout F V
  pub selection : CanvasSelection
  pub clipboard : Option (ClipboardPayload F V)
  pub history : List (WorkflowLayout F V)
  pub future : List (WorkflowLayout F V)
  pub dirty : Bool
  pub last_autosaved_at : Option String
