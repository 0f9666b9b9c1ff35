-- ===== src/Designer/Tests.antt =====
-- Runs of services/integration/workflow_designer/canvas_state.py, and its theorems at concrete inputs.
use vision_virtual_intellige.Prelude.{
  decimal, ℕ, ◌+◌, ◌-◌, ◌≡◌, refl, String, none, some, List, [], ◌∷◌, map, drop, length, last?,
  IsDistinct,
}
use vision_virtual_intellige.Designer.{
  build_graph, edge_entry, NodeType, DesignerNode, DesignerEdge, WorkflowLayout, CanvasState,
  max_history, new_canvas_state, push_history, undo, redo, add_node, add_edge, set_selection,
  delete_selection, copy_selection, paste, paste_from, paste_nodes, paste_edges, place, fresh_id,
  fresh_from, node_ids, Step, Session, Edit,
}
use vision_virtual_intellige.Designer.History.{IsBounded, undo-Edit, redo-undo, Session-IsBounded}
use vision_virtual_intellige.Designer.Pasted.{paste-IsDistinct}
use vision_virtual_intellige.Designer.Sound.{IsSound}
use vision_virtual_intellige.Designer.Built.{CarefulSession-build_graph}
use vision_virtual_intellige.Designer.Careful.{CarefulSession, CarefulSession-IsSound}

abbrev node : String → DesignerNode ℕ String
node id = record {
  id = id;
  node_type = NodeType.agent;
  label = id;
  x = 0;
  y = 0;
  color = none;
  comment = none;
  group_id = none;
  config = [];
  plugin_id = none;
}

abbrev edge : DesignerEdge
edge = record { id = "e"; source = "a"; target = "b"; label = ""; condition = none }

abbrev layout : WorkflowLayout ℕ String
layout = record {
  workflow_name = "w";
  version = "0.0.1";
  nodes = node "a" ∷ node "b" ∷ [];
  edges = edge ∷ [];
  groups = [];
  entry_node_id = some "a";
  viewport = record { zoom = 1; pan_x = 0; pan_y = 0 };
  metadata = [];
  updated_at = "";
}

abbrev start : CanvasState ℕ String
start = new_canvas_state layout

abbrev both : CanvasState ℕ String
both = set_selection start (some ("a" ∷ "b" ∷ [])) none none

abbrev copied : CanvasState ℕ String
copied = copy_selection both

program : Unit {0}
unfolding new_canvas_state push_history undo redo add_node add_edge set_selection delete_selection
    copy_selection paste paste_from paste_nodes paste_edges place fresh_id fresh_from decimal
program = tt

abbrev pasted_ids : CanvasState ℕ String → List String
pasted_ids s = node_ids s.layout.nodes

paste_twice :
    (t : CanvasState ℕ String) × (u : CanvasState ℕ String) × (paste ◌+◌ "1" copied 40 40 "_copy"
      ≡ some t)
    × (paste ◌+◌ "2" t 40 40 "_copy" ≡ some u)
    × (pasted_ids u ≡ "a" ∷ "b" ∷ "a_copy" ∷ "b_copy" ∷ "a_copy2" ∷ "b_copy2" ∷ [])
    × (map (λ e. e.id) u.layout.edges ≡ "e" ∷ "e_copy" ∷ "e_copy" ∷ [])
unfolding program
paste_twice = (_, _, refl, refl, refl, refl)

abbrev edited : CanvasState ℕ String
edited = add_node "1" start (node "c")

-- A paste of two copied nodes, undone.
abbrev once_pasted : CanvasState ℕ String
once_pasted = paste_twice.0

undo-Edit_example :
    ((undo once_pasted).layout ≡ copied.layout)
    × ((undo once_pasted).history ≡ drop (length copied.history + 1 - max_history) copied.history)
    × ((undo once_pasted).future ≡ once_pasted.layout ∷ [])
unfolding program
undo-Edit_example =
    undo-Edit ◌+◌ {s = copied} (Edit.pasted "1" 40 40 "_copy" _ refl refl paste_twice.2)

edited-last? : last? edited.history ≡ some layout
unfolding program
edited-last? = refl

redo-undo_example :
    ((redo (undo edited)).layout ≡ edited.layout)
    × ((redo (undo edited)).history ≡ edited.history)
    × ((redo (undo edited)).future ≡ edited.future)
redo-undo_example = redo-undo edited edited-last?

undone-future : (undo edited).future ≡ edited.layout ∷ []
unfolding program
undone-future = refl

session : Session ◌+◌ layout (undo edited)
session =
    Session.step (Session.step Session.begin (Step.node_added "1" start (node "c")))
      (Step.undone edited)

Session-IsBounded_example : IsBounded (undo edited)
Session-IsBounded_example = Session-IsBounded ◌+◌ session

pasted :
    (t : CanvasState ℕ String) × (paste ◌+◌ "1" copied 40 40 "_copy" ≡ some t)
    × IsDistinct (node_ids copied.layout.nodes)
unfolding program
pasted = (_, refl, (refl, (refl, tt)))

paste-IsDistinct_example : IsDistinct (node_ids (pasted.0).layout.nodes)
unfolding program
paste-IsDistinct_example =
    paste-IsDistinct ◌+◌ "1" copied 40 40 "_copy" pasted.2 (refl, (refl, tt)) pasted.1

careful :
    CarefulSession ◌+◌ layout
      (delete_selection "2" (set_selection (add_edge "1" start edge) (some ("a" ∷ [])) none none))
unfolding new_canvas_state
careful =
    CarefulSession.step (Step.deleted "2" _)
      (CarefulSession.step (Step.selected _ (some ("a" ∷ [])) none none)
        (CarefulSession.step (Step.edge_added "1" start edge) CarefulSession.begin (refl, refl)) tt)
      tt

CarefulSession-IsSound_example :
    IsSound
      (delete_selection "2" (set_selection (add_edge "1" start edge) (some ("a" ∷ [])) none none))
CarefulSession-IsSound_example = CarefulSession-IsSound ◌+◌ (refl, refl, tt) careful

abbrev edge_edited : CanvasState ℕ String
edge_edited = add_edge "1" start edge

careful_edge : CarefulSession ◌+◌ layout edge_edited
unfolding new_canvas_state
careful_edge =
    CarefulSession.step (Step.edge_added "1" start edge) CarefulSession.begin (refl, refl)

CarefulSession-build_graph_example :
    (build_graph edge_edited.layout).edges ≡ map edge_entry edge_edited.layout.edges
CarefulSession-build_graph_example = CarefulSession-build_graph ◌+◌ (refl, refl, tt) careful_edge
