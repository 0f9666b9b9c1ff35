-- ===== src/Designer/Sound.antt =====
-- services/integration/workflow_designer/canvas_state.py: no edge dangles in a state, and the parts of
-- the operations that keep it so.
use mathlib.Core.List.{map-append}
use vision_virtual_intellige.Prelude.{
  ℕ, zero, suc, ◌-◌, ◌≡◌, sym, subst, String, ◌==◌, not, Option, none, some, List, [], ◌∷◌, ◌++◌,
  map, arith, contains-append, keep_if, drop, init, last?, length, IsSubset,
}
use vision_virtual_intellige.Designer.{
  DesignerNode, WorkflowLayout, CanvasState, node_ids, push_history, undo_to, redo_to,
  delete_selection, place, paste_edges, max_history,
}
use vision_virtual_intellige.Designer.Clipboard.{IsPlaced}
use vision_virtual_intellige.Designer.Integrity.{
  Attached, IsAttached, Attached-mono, Attached-append, contains-node_ids-keep_if, node_ids-map,
  delete_from-IsAttached, paste_nodes-lookup, paste_edges-Attached,
}

module _ {F V : Type 0} where
  abbrev pub AllAttached : List (WorkflowLayout F V) → Type 0
  AllAttached [] = Unit
  AllAttached (l ∷ ls) = IsAttached l × AllAttached ls

  -- No edge dangles in the layout, nor in any that undo or redo can bring back.
  pub record IsSound (s : CanvasState F V) : Type 0 where
    pub layout : IsAttached s.layout
    pub history : AllAttached s.history
    pub future : AllAttached s.future

  AllAttached-append :
      (ls ms : List (WorkflowLayout F V)) → AllAttached ls → AllAttached ms → AllAttached (ls ++ ms)
  AllAttached-append [] ms h k = k
  AllAttached-append (l ∷ ls) ms h k = (h.0, AllAttached-append ls ms h.1 k)

  AllAttached-drop :
      (n : ℕ) (ls : List (WorkflowLayout F V)) → AllAttached ls → AllAttached (drop n ls)
  AllAttached-drop zero ls h = h
  AllAttached-drop (suc n) [] h = tt
  AllAttached-drop (suc n) (l ∷ ls) h = AllAttached-drop n ls h.1

  AllAttached-init : (ls : List (WorkflowLayout F V)) → AllAttached ls → AllAttached (init ls)
  AllAttached-init [] h = tt
  AllAttached-init (l ∷ []) h = tt
  AllAttached-init (l ∷ m ∷ ls) h = (h.0, AllAttached-init (m ∷ ls) h.1)

  AllAttached-last? :
      (ls : List (WorkflowLayout F V)) {l : WorkflowLayout F V}
      → AllAttached ls
      → last? ls ≡ some l
      → IsAttached l
  AllAttached-last? [] h e = cc
  AllAttached-last? (l ∷ []) {l = found} h e =
      let same : l ≡ found = cc in subst IsAttached same h.0
  AllAttached-last? (l ∷ m ∷ ls) h e = AllAttached-last? (m ∷ ls) h.1 e

  pub push_history-IsSound :
      (now : String) (s : CanvasState F V) → IsSound s → IsSound (push_history now s)
  unfolding push_history
  push_history-IsSound now s h = record {
    layout = h.layout;
    history =
        AllAttached-drop (length (s.history ++ s.layout ∷ []) - max_history)
          (s.history ++ s.layout ∷ [])
          (AllAttached-append s.history (s.layout ∷ []) h.history (h.layout, tt));
    future = tt;
  }

  pub undo_to-IsSound :
      (s : CanvasState F V) (previous : Option (WorkflowLayout F V))
      → last? s.history ≡ previous
      → IsSound s
      → IsSound (undo_to s previous)
  undo_to-IsSound s none e h = h
  undo_to-IsSound s (some previous) e h = record {
    layout = AllAttached-last? s.history h.history e;
    history = AllAttached-init s.history h.history;
    future = (h.layout, h.future);
  }

  pub redo_to-IsSound :
      (s : CanvasState F V) (future : List (WorkflowLayout F V))
      → AllAttached future
      → IsSound s
      → IsSound (redo_to s future)
  redo_to-IsSound s [] f h = h
  redo_to-IsSound s (following ∷ rest) f h = record {
    layout = f.0;
    history = AllAttached-append s.history (s.layout ∷ []) h.history (h.layout, tt);
    future = f.1;
  }

  -- An edited layout after a push.
  pub edited-IsSound :
      (now : String) (s : CanvasState F V) (layout : WorkflowLayout F V)
      → IsSound s
      → IsAttached layout
      → IsSound (record (push_history now s) { layout = layout })
  edited-IsSound now s layout h a =
      let pushed = push_history-IsSound now s h in
      record { layout = a; history = pushed.history; future = pushed.future }

  pub same_ids-Attached :
      (f : DesignerNode F V → DesignerNode F V) (layout : WorkflowLayout F V)
      → ((n : DesignerNode F V) → (f n).id ≡ n.id)
      → IsAttached layout
      → Attached (node_ids (map f layout.nodes)) layout.edges
  same_ids-Attached f layout same h = rw (node_ids-map f layout.nodes same) h

  pub replaced-IsSubset :
      (node : DesignerNode F V) (nodes : List (DesignerNode F V))
      → IsSubset
          (node_ids nodes)
          (node_ids (keep_if (λ n. not (n.id == node.id)) nodes ++ node ∷ []))
  replaced-IsSubset node nodes i m =
      let kept = keep_if (λ (n : DesignerNode F V). not (n.id == node.id)) nodes in
      rw (map-append (λ (n : DesignerNode F V). n.id) kept (node ∷ [])) (
        ground (
          arith,
          contains-append i (node_ids kept) (node.id ∷ []),
          contains-node_ids-keep_if i (λ (j : String). not (j == node.id)) nodes,
        ))

  pub placed-IsAttached :
      (add : F → F → F) (now : String) (s : CanvasState F V) (x y : F) (suffix : String)
      {t : CanvasState F V}
      → IsSound s
      → IsPlaced add now s x y suffix s.clipboard t
      → IsSound t
  unfolding place push_history
  placed-IsAttached add now s x y suffix h p =
      let (id_map, new_nodes) = p.placed in
      let ids = node_ids s.layout.nodes in
      let all_ids = ids ++ node_ids new_nodes in
      let old =
        Attached-mono ids all_ids s.layout.edges
          (λ i m. ground (arith, contains-append i ids (node_ids new_nodes))) h.layout in
      let new = paste_edges-Attached suffix id_map all_ids p.clipboard.edges (λ k v l. ground (
        arith,
        contains-append v ids (node_ids new_nodes),
        paste_nodes-lookup add x y suffix ids p.clipboard.nodes [] id_map new_nodes k v p.renamed l,
      )) in
      let pushed = push_history-IsSound now s h in
      subst IsSound (sym p.result) (record {
        layout = rw (map-append (λ (n : DesignerNode F V). n.id) s.layout.nodes new_nodes) (
            Attached-append all_ids s.layout.edges (paste_edges suffix id_map p.clipboard.edges) old
              new);
        history = pushed.history;
        future = tt;
      })

  pub deleted-IsSound :
      (now : String) (s : CanvasState F V) → IsSound s → IsSound (delete_selection now s)
  unfolding delete_selection
  deleted-IsSound now s h =
      let pushed = push_history-IsSound now s h in
      record {
        layout = delete_from-IsAttached s.selection s.layout h.layout;
        history = pushed.history;
        future = tt;
      }
