-- ===== src/Designer/Steps.antt =====
-- services/integration/workflow_designer/canvas_state.py: an editing session, one operation after
-- another, and the operations that edit the layout.
use vision_virtual_intellige.Prelude.{◌≡◌, String, false, Option, some, List, Dict, is_empty}
use vision_virtual_intellige.Designer.Models.{
  DesignerNode, DesignerEdge, WorkflowLayout, ClipboardPayload, CanvasState,
}
use vision_virtual_intellige.Designer.Canvas.{
  new_canvas_state, undo, redo, add_node, move_node, update_node_config, add_edge, set_selection,
  delete_selection, copy_selection, cut_selection, set_viewport, mark_autosaved,
}
use vision_virtual_intellige.Designer.Paste.{paste}

module _ {F V : Type 0} (add : F → F → F) where
  pub data Step : CanvasState F V → CanvasState F V → Type 0 where
    undone : (s : CanvasState F V) → Step s (undo s)
    redone : (s : CanvasState F V) → Step s (redo s)
    node_added :
        (now : String) (s : CanvasState F V) (n : DesignerNode F V) → Step s (add_node now s n)
    node_moved :
        (now : String) (s : CanvasState F V) (id : String) (x y : F)
        → Step s (move_node now s id x y)
    node_configured :
        (now : String) (s : CanvasState F V) (id : String) (config : Dict V)
        → Step s (update_node_config now s id config)
    edge_added : (now : String) (s : CanvasState F V) (e : DesignerEdge) → Step s (add_edge now s e)
    selected :
        (s : CanvasState F V) (nodes edges groups : Option (List String))
        → Step s (set_selection s nodes edges groups)
    deleted : (now : String) (s : CanvasState F V) → Step s (delete_selection now s)
    copied : (s : CanvasState F V) → Step s (copy_selection s)
    cut : (now : String) (s : CanvasState F V) → Step s (cut_selection now s)
    pasted :
        (now : String) (s : CanvasState F V) (x y : F) (suffix : String) {t : CanvasState F V}
        → paste add now s x y suffix ≡ some t
        → Step s t
    viewed : (s : CanvasState F V) (zoom x y : F) → Step s (set_viewport s zoom x y)
    autosaved : (now : String) (s : CanvasState F V) → Step s (mark_autosaved now s)

  pub data Session (layout : WorkflowLayout F V) : CanvasState F V → Type 0 where
    begin : Session layout (new_canvas_state layout)
    step : {s t : CanvasState F V} → Session layout s → Step s t → Session layout t

  -- The operations that edit the layout: all that push the history. A paste does so when the clipboard
  -- holds a node.
  pub data Edit (s : CanvasState F V) : CanvasState F V → Type 0 where
    node_added : (now : String) (n : DesignerNode F V) → Edit s (add_node now s n)
    node_moved : (now id : String) (x y : F) → Edit s (move_node now s id x y)
    node_configured :
        (now id : String) (config : Dict V) → Edit s (update_node_config now s id config)
    edge_added : (now : String) (e : DesignerEdge) → Edit s (add_edge now s e)
    deleted : (now : String) → Edit s (delete_selection now s)
    cut : (now : String) → Edit s (cut_selection now s)
    pasted :
        (now : String) (x y : F) (suffix : String) {t : CanvasState F V}
        (clipboard : ClipboardPayload F V)
        → s.clipboard ≡ some clipboard
        → is_empty clipboard.nodes ≡ false
        → paste add now s x y suffix ≡ some t
        → Edit s t
