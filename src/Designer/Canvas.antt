-- ===== src/Designer/Canvas.antt =====
-- services/integration/workflow_designer/canvas_state.py: the operations but `paste`. Each returns the
-- new state; `now` is the text of `_now_iso()`. Within one state no two layouts share an object that
-- an operation assigns to, so values stand for the objects.
use vision_virtual_intellige.Prelude.{
  ℕ, ◌-◌, String, ◌==◌, Bool, true, false, not, ◌&&◌, Option, none, some, List, [], ◌∷◌, ◌++◌, map,
  if◌then◌else◌, length, drop, init, last?, keep_if, contains, or_default, Dict, insert,
}
use vision_virtual_intellige.Designer.Models.{
  DesignerNode, DesignerEdge, DesignerGroup, WorkflowLayout, CanvasSelection, CanvasState,
}

abbrev pub max_history : ℕ
max_history = 100

abbrev pub empty_selection : CanvasSelection
empty_selection = record { node_ids = []; edge_ids = []; group_ids = [] }

-- `xs[-MAX_HISTORY:]`
abbrev last_history : {A : Type 0} → List A → List A
last_history xs = drop (length xs - max_history) xs

-- `{**old, **new}`
abbrev pub update_dict : {V : Type 0} → Dict V → Dict V → Dict V
update_dict old [] = old
update_dict old ((k, v) ∷ new) = update_dict (insert k v old) new

abbrev pub named : Option String → List String → Bool
named none ids = false
named (some id) ids = contains id ids

abbrev pub drop_members : List String → DesignerGroup → DesignerGroup
drop_members ids g = record g { node_ids = keep_if (λ nid. not (contains nid ids)) g.node_ids }

module _ {F V : Type 0} where
  unfoldable pub new_canvas_state : WorkflowLayout F V → CanvasState F V
  new_canvas_state layout = record {
    layout = layout;
    selection = empty_selection;
    clipboard = none;
    history = [];
    future = [];
    dirty = false;
    last_autosaved_at = none;
  }

  unfoldable pub push_history : String → CanvasState F V → CanvasState F V
  push_history now state = record state {
    layout = record (state.layout) { updated_at = now };
    history = last_history (state.history ++ state.layout ∷ []);
    future = [];
    dirty = true;
  }

  abbrev pub undo_to : CanvasState F V → Option (WorkflowLayout F V) → CanvasState F V
  undo_to state none = state
  undo_to state (some previous) = record state {
    layout = previous;
    history = init state.history;
    future = state.layout ∷ state.future;
    dirty = true;
  }

  unfoldable pub undo : CanvasState F V → CanvasState F V
  undo state = undo_to state (last? state.history)

  abbrev pub redo_to : CanvasState F V → List (WorkflowLayout F V) → CanvasState F V
  redo_to state [] = state
  redo_to state (next_layout ∷ new_future) = record state {
    layout = next_layout;
    history = state.history ++ state.layout ∷ [];
    future = new_future;
    dirty = true;
  }

  unfoldable pub redo : CanvasState F V → CanvasState F V
  redo state = redo_to state state.future

  unfoldable pub add_node : String → CanvasState F V → DesignerNode F V → CanvasState F V
  unfolding push_history
  add_node now state node =
      let s = push_history now state in
      record s {
        layout = record (s.layout) {
          nodes = keep_if (λ n. not (n.id == node.id)) s.layout.nodes ++ node ∷ [];
        };
      }

  abbrev move_to : String → F → F → DesignerNode F V → DesignerNode F V
  move_to node_id x y n = if n.id == node_id then record n { x = x; y = y } else n

  unfoldable pub move_node : String → CanvasState F V → String → F → F → CanvasState F V
  unfolding push_history
  move_node now state node_id x y =
      let s = push_history now state in
      record s { layout = record (s.layout) { nodes = map (move_to node_id x y) s.layout.nodes } }

  abbrev configure : String → Dict V → DesignerNode F V → DesignerNode F V
  configure node_id config n =
      if n.id == node_id then record n { config = update_dict n.config config } else n

  unfoldable pub update_node_config : String → CanvasState F V → String → Dict V → CanvasState F V
  unfolding push_history
  update_node_config now state node_id config =
      let s = push_history now state in
      record s {
        layout = record (s.layout) { nodes = map (configure node_id config) s.layout.nodes };
      }

  unfoldable pub add_edge : String → CanvasState F V → DesignerEdge → CanvasState F V
  unfolding push_history
  add_edge now state edge =
      let s = push_history now state in
      record s {
        layout = record (s.layout) {
          edges = keep_if (λ e. not (e.id == edge.id)) s.layout.edges ++ edge ∷ [];
        };
      }

  unfoldable pub set_selection :
      CanvasState F V
      → Option (List String)
      → Option (List String)
      → Option (List String)
      → CanvasState F V
  set_selection state node_ids edge_ids group_ids = record state {
    selection = record {
      node_ids = or_default node_ids [];
      edge_ids = or_default edge_ids [];
      group_ids = or_default group_ids [];
    };
  }

  -- The layout after a deletion of the selected items.
  unfoldable pub delete_from : CanvasSelection → WorkflowLayout F V → WorkflowLayout F V
  delete_from selection layout =
      let ids = selection.node_ids in
      record layout {
        nodes = keep_if (λ n. not (contains n.id ids)) layout.nodes;
        edges =
            keep_if
              (λ e.
                not (contains e.id selection.edge_ids)
                && (not (contains e.source ids) && not (contains e.target ids)))
              layout.edges;
        groups =
            map (drop_members ids)
              (keep_if (λ g. not (contains g.id selection.group_ids)) layout.groups);
        entry_node_id = if named layout.entry_node_id ids then none else layout.entry_node_id;
      }

  unfoldable pub delete_selection : String → CanvasState F V → CanvasState F V
  unfolding push_history delete_from
  delete_selection now state =
      let s = push_history now state in
      record s { layout = delete_from s.selection s.layout; selection = empty_selection }

  unfoldable pub copy_selection : CanvasState F V → CanvasState F V
  copy_selection state =
      let ids = state.selection.node_ids in
      record state {
        clipboard = some (record {
          nodes = keep_if (λ n. contains n.id ids) state.layout.nodes;
          edges = keep_if (λ e. contains e.source ids && contains e.target ids) state.layout.edges;
        });
      }

  unfoldable pub cut_selection : String → CanvasState F V → CanvasState F V
  unfolding copy_selection delete_selection
  cut_selection now state = delete_selection now (copy_selection state)

  unfoldable pub set_viewport : CanvasState F V → F → F → F → CanvasState F V
  set_viewport state zoom pan_x pan_y = record state {
    layout = record (state.layout) {
      viewport = record { zoom = zoom; pan_x = pan_x; pan_y = pan_y };
    };
  }

  unfoldable pub mark_autosaved : String → CanvasState F V → CanvasState F V
  mark_autosaved now state = record state { dirty = false; last_autosaved_at = some now }
