-- ===== src/Designer/Careful.antt =====
-- services/integration/workflow_designer/canvas_state.py: an editing session never leaves a dangling
-- edge, if no operation adds one.
use vision_virtual_intellige.Prelude.{
  ◌≡◌, refl, sym, subst, true, inl, inr, [], ◌∷◌, arith, contains, last?,
}
use vision_virtual_intellige.Designer.{
  WorkflowLayout, CanvasState, node_ids, new_canvas_state, push_history, undo, redo, add_node,
  move_node, update_node_config, add_edge, set_selection, delete_selection, copy_selection,
  cut_selection, set_viewport, mark_autosaved, Step,
}
use vision_virtual_intellige.Designer.Clipboard.{paste-cases}
use vision_virtual_intellige.Designer.Integrity.{
  IsAttached, Attached-mono, Attached-append, Attached-keep_if,
}
use vision_virtual_intellige.Designer.Sound.{
  IsSound, undo_to-IsSound, redo_to-IsSound, edited-IsSound, same_ids-Attached, replaced-IsSubset,
  placed-IsAttached, deleted-IsSound,
}

module _ {F V : Type 0} (add : F → F → F) where
  -- The step does not add an edge whose ends are not nodes of the layout.
  abbrev pub IsCareful : {s t : CanvasState F V} → Step add s t → Type 0
  IsCareful (Step.edge_added now s e) =
      (contains e.source (node_ids s.layout.nodes) ≡ true)
      × (contains e.target (node_ids s.layout.nodes) ≡ true)
  IsCareful (Step.undone s) = Unit
  IsCareful _ = Unit

  Step-IsSound : {s t : CanvasState F V} (e : Step add s t) → IsCareful e → IsSound s → IsSound t
  unfolding undo redo add_node move_node update_node_config add_edge set_selection delete_selection
      copy_selection cut_selection set_viewport mark_autosaved push_history
  Step-IsSound (Step.undone s) c h = undo_to-IsSound s (last? s.history) refl h
  Step-IsSound (Step.redone s) c h = redo_to-IsSound s s.future h.future h
  Step-IsSound (Step.node_added now s n) c h = edited-IsSound now s _ h (
      Attached-mono (node_ids s.layout.nodes) _ s.layout.edges (replaced-IsSubset n s.layout.nodes)
        h.layout)
  Step-IsSound (Step.node_moved now s id x y) c h =
      edited-IsSound now s _ h (same_ids-Attached _ s.layout (λ n. ground arith) h.layout)
  Step-IsSound (Step.node_configured now s id config) c h =
      edited-IsSound now s _ h (same_ids-Attached _ s.layout (λ n. ground arith) h.layout)
  Step-IsSound (Step.edge_added now s e) c h = edited-IsSound now s _ h (
      Attached-append (node_ids s.layout.nodes) _ (e ∷ [])
        (Attached-keep_if (node_ids s.layout.nodes) _ s.layout.edges h.layout) (c.0, c.1, tt))
  Step-IsSound (Step.selected s nodes edges groups) c h = record {
    layout = h.layout;
    history = h.history;
    future = h.future;
  }
  Step-IsSound (Step.deleted now s) c h = deleted-IsSound now s h
  Step-IsSound (Step.copied s) c h = record {
    layout = h.layout;
    history = h.history;
    future = h.future;
  }
  Step-IsSound (Step.cut now s) c h =
      deleted-IsSound now (copy_selection s)
        (record { layout = h.layout; history = h.history; future = h.future })
  Step-IsSound (Step.pasted now s x y suffix e) c h = elim (paste-cases add now s x y suffix e) [
    | inl same ↦ subst IsSound (sym same) h
    | inr p ↦ placed-IsAttached add now s x y suffix h p
  ]
  Step-IsSound (Step.viewed s zoom x y) c h = record {
    layout = h.layout;
    history = h.history;
    future = h.future;
  }
  Step-IsSound (Step.autosaved now s) c h = record {
    layout = h.layout;
    history = h.history;
    future = h.future;
  }

  -- A session in which every added edge joins nodes of the layout.
  pub data CarefulSession (layout : WorkflowLayout F V) : CanvasState F V → Type 0 where
    begin : CarefulSession layout (new_canvas_state layout)
    step :
        {s t : CanvasState F V} (e : Step add s t)
        → CarefulSession layout s
        → IsCareful e
        → CarefulSession layout t

  -- If no edge dangles in the first layout and every added edge joins nodes of the layout, no edge
  -- ever dangles: not in the layout, nor in any layout that undo or redo can bring back, whatever
  -- nodes are deleted, cut, pasted or replaced.
  pub CarefulSession-IsSound :
      {layout : WorkflowLayout F V} {s : CanvasState F V}
      → IsAttached layout
      → CarefulSession layout s
      → IsSound s
  unfolding new_canvas_state
  CarefulSession-IsSound h CarefulSession.begin = record { layout = h; history = tt; future = tt }
  CarefulSession-IsSound h (CarefulSession.step e session careful) =
      Step-IsSound e careful (CarefulSession-IsSound h session)
