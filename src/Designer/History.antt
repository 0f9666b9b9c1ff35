-- ===== src/Designer/History.antt =====
-- services/integration/workflow_designer/canvas_state.py: undo and redo.
use vision_virtual_intellige.Prelude.{
  ℕ, zero, suc, ◌+◌, ◌-◌, ◌≤◌, ◌<◌, ◌≡◌, refl, sym, ap, ◌∙◌, String, inl, inr, some, List, [], ◌∷◌,
  ◌++◌, arith, length, length-append, length-drop, drop, init, last?, last?-concat, init-concat,
  Option-cases, List-cases, false, is_empty, subst,
}
use vision_virtual_intellige.Designer.{
  place, WorkflowLayout, CanvasState, max_history, new_canvas_state, push_history, undo, undo_to,
  redo, redo_to, add_node, move_node, update_node_config, add_edge, set_selection, delete_selection,
  copy_selection, cut_selection, set_viewport, mark_autosaved, Step, Session, Edit,
  ClipboardPayload, paste, paste_from, paste_nodes, node_ids,
}
use vision_virtual_intellige.Designer.Clipboard.{paste-cases}

module _ {A : Type 0} where
  drop-concat :
      (n : ℕ) (xs : List A) (x : A) → n ≤ length xs → drop n (xs ++ x ∷ []) ≡ drop n xs ++ x ∷ []
  drop-concat zero xs x h = refl
  drop-concat (suc n) [] x h = absurd (omega arith)
  drop-concat (suc n) (y ∷ xs) x h = drop-concat n xs x (omega arith)

  length-init : (xs : List A) → length (init xs) ≡ length xs - 1
  length-init [] = omega arith
  length-init (x ∷ []) = omega arith
  length-init (x ∷ y ∷ xs) = omega (arith, length-init (y ∷ xs))

  last?-length : (xs : List A) (x : A) → last? xs ≡ some x → 0 < length xs
  last?-length [] x h = cc
  last?-length (y ∷ xs) x h = omega arith

  init-append-last : (xs : List A) (x : A) → last? xs ≡ some x → init xs ++ x ∷ [] ≡ xs
  init-append-last [] x h = cc
  init-append-last (y ∷ []) x h = ground arith
  init-append-last (y ∷ z ∷ xs) x h = ap (◌∷◌ y) (init-append-last (z ∷ xs) x h)

module _ {F V : Type 0} where
  -- The history after a push: at most the last 99 entries before it, then the layout.
  push_history-history :
      (now : String) (s : CanvasState F V)
      → (push_history now s).history
        ≡ drop (length s.history + 1 - max_history) s.history ++ s.layout ∷ []
  unfolding push_history
  push_history-history now s =
      rw (length-append s.history (s.layout ∷ []))
        (drop-concat (length s.history + 1 - max_history) s.history s.layout (omega arith))

  undo-last? :
      (s : CanvasState F V) {previous : WorkflowLayout F V}
      → last? s.history ≡ some previous
      → undo s ≡ undo_to s (some previous)
  unfolding undo
  undo-last? s h = ap (undo_to s) h

  redo-future :
      (s : CanvasState F V) {following : WorkflowLayout F V} {rest : List (WorkflowLayout F V)}
      → s.future ≡ following ∷ rest
      → redo s ≡ redo_to s (following ∷ rest)
  unfolding redo
  redo-future s h = ap (redo_to s) h

  -- Undoing `t` gives back the layout of `s`, and the history of `s` but for what the bound of 100
  -- entries cut off.
  abbrev Restores : CanvasState F V → CanvasState F V → Type 0
  Restores s t =
      ((undo t).layout ≡ s.layout)
      × ((undo t).history ≡ drop (length s.history + 1 - max_history) s.history)
      × ((undo t).future ≡ t.layout ∷ [])

  undo-pushed :
      (now : String) (s t : CanvasState F V)
      → t.history ≡ (push_history now s).history
      → t.future ≡ []
      → Restores s t
  undo-pushed now s t same empty =
      let kept = drop (length s.history + 1 - max_history) s.history in
      let e : t.history ≡ kept ++ s.layout ∷ [] = same ∙ push_history-history now s in
      rw (undo-last? t (ap last? e ∙ last?-concat kept s.layout))
        (refl, ap init e ∙ init-concat kept s.layout, ap (t.layout ∷◌) empty)

  -- Redoing right after an undo that had something to undo gives back layout, history and future.
  pub redo-undo :
      (s : CanvasState F V) {previous : WorkflowLayout F V}
      → last? s.history ≡ some previous
      → ((redo (undo s)).layout ≡ s.layout)
        × ((redo (undo s)).history ≡ s.history)
        × ((redo (undo s)).future ≡ s.future)
  redo-undo s {previous} h =
      rw (undo-last? s h, redo-future (undo_to s (some previous)) refl)
        (refl, init-append-last s.history previous h, refl)

  -- And undoing right after a redo that had something to redo.
  pub undo-redo :
      (s : CanvasState F V) {following : WorkflowLayout F V} {rest : List (WorkflowLayout F V)}
      → s.future ≡ following ∷ rest
      → ((undo (redo s)).layout ≡ s.layout)
        × ((undo (redo s)).history ≡ s.history)
        × ((undo (redo s)).future ≡ s.future)
  undo-redo s {following} {rest} h =
      rw
        (
          redo-future s h,
          undo-last? (redo_to s (following ∷ rest)) (last?-concat s.history s.layout),
        )
        (refl, init-concat s.history s.layout, sym h)

  -- The undo and redo stacks together hold at most 100 layouts.
  abbrev pub IsBounded : CanvasState F V → Type 0
  IsBounded s = length s.history + length s.future ≤ max_history

  push_history-IsBounded :
      (now : String) (s : CanvasState F V) → IsBounded s → IsBounded (push_history now s)
  unfolding push_history
  push_history-IsBounded now s h = omega (
    arith,
    length-drop (length (s.history ++ s.layout ∷ []) - max_history) (s.history ++ s.layout ∷ []),
  )

  undo-IsBounded : (s : CanvasState F V) → IsBounded s → IsBounded (undo s)
  unfolding undo
  undo-IsBounded s h = elim (Option-cases (last? s.history)) [
    | inl nothing ↦ rw nothing h
    | inr (previous, e) ↦
        rw e (omega (arith, length-init s.history, last?-length s.history previous e))
  ]

  redo-IsBounded : (s : CanvasState F V) → IsBounded s → IsBounded (redo s)
  unfolding redo
  redo-IsBounded s h = elim (List-cases s.future) [
    | inl nothing ↦ rw nothing (omega arith)
    | inr (following, rest, e) ↦
        rw e (omega (arith, length-append s.history (s.layout ∷ []), ap length e))
  ]

module _ {F V : Type 0} (add : F → F → F) where
  undo-paste :
      (now : String) (s : CanvasState F V) (x y : F) (suffix : String)
      (clipboard : ClipboardPayload F V) {t : CanvasState F V}
      → s.clipboard ≡ some clipboard
      → is_empty clipboard.nodes ≡ false
      → paste add now s x y suffix ≡ some t
      → Restores s t
  unfolding paste paste_from place push_history
  undo-paste now s x y suffix clipboard {t} held full e =
      let ids = node_ids s.layout.nodes in
      elim (Option-cases (paste_nodes add x y suffix ids [] clipboard.nodes)) [
        | inl ran_out ↦ absurd (let e' = rw (held, full, ran_out) at e in cc)
        | inr (placed, renamed) ↦
            let e' = rw (held, full, renamed) at e in
            let result : place (push_history now s) clipboard.edges placed suffix ≡ t = cc in
            subst (Restores s) result (undo-pushed now s _ refl refl)
      ]

  -- Undoing right after an edit, that is after a node was added, moved or configured, an edge added,
  -- the selection deleted or cut, or a clipboard that holds a node pasted, gives back the layout before
  -- the edit, exactly, and the history before it but for what the bound of 100 entries cut off; the
  -- edited layout alone can be redone.
  pub undo-Edit :
      {s t : CanvasState F V}
      → Edit add s t
      → ((undo t).layout ≡ s.layout)
        × ((undo t).history ≡ drop (length s.history + 1 - max_history) s.history)
        × ((undo t).future ≡ t.layout ∷ [])
  unfolding push_history add_node move_node update_node_config add_edge delete_selection
      copy_selection cut_selection
  undo-Edit {s} {t} (Edit.node_added now n) = undo-pushed now s t refl refl
  undo-Edit {s} {t} (Edit.node_moved now id x y) = undo-pushed now s t refl refl
  undo-Edit {s} {t} (Edit.node_configured now id config) = undo-pushed now s t refl refl
  undo-Edit {s} {t} (Edit.edge_added now e) = undo-pushed now s t refl refl
  undo-Edit {s} {t} (Edit.deleted now) = undo-pushed now s t refl refl
  undo-Edit {s} {t} (Edit.cut now) = undo-pushed now s t refl refl
  undo-Edit {s} {t} (Edit.pasted now x y suffix clipboard held full e) =
      undo-paste now s x y suffix clipboard held full e

  Step-IsBounded : {s t : CanvasState F V} → Step add s t → IsBounded s → IsBounded t
  unfolding add_node move_node update_node_config add_edge set_selection delete_selection
      copy_selection cut_selection set_viewport mark_autosaved place
  Step-IsBounded (Step.undone s) h = undo-IsBounded s h
  Step-IsBounded (Step.redone s) h = redo-IsBounded s h
  Step-IsBounded (Step.node_added now s n) h = push_history-IsBounded now s h
  Step-IsBounded (Step.node_moved now s id x y) h = push_history-IsBounded now s h
  Step-IsBounded (Step.node_configured now s id config) h = push_history-IsBounded now s h
  Step-IsBounded (Step.edge_added now s e) h = push_history-IsBounded now s h
  Step-IsBounded (Step.selected s nodes edges groups) h = h
  Step-IsBounded (Step.deleted now s) h = push_history-IsBounded now s h
  Step-IsBounded (Step.copied s) h = h
  Step-IsBounded (Step.cut now s) h = push_history-IsBounded now s h
  Step-IsBounded (Step.pasted now s x y suffix e) h = elim (paste-cases add now s x y suffix e) [
    | inl same ↦ rw same h
    | inr p ↦ rw p.result (push_history-IsBounded now s h)
  ]
  Step-IsBounded (Step.viewed s zoom x y) h = h
  Step-IsBounded (Step.autosaved now s) h = h

  -- In every state of every editing session, the undo and redo stacks together hold at most 100
  -- layouts, whatever operations came before.
  pub Session-IsBounded :
      {layout : WorkflowLayout F V} {s : CanvasState F V} → Session add layout s → IsBounded s
  unfolding new_canvas_state
  Session-IsBounded Session.begin = omega arith
  Session-IsBounded (Session.step session e) = Step-IsBounded e (Session-IsBounded session)
