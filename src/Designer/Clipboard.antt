-- ===== src/Designer/Clipboard.antt =====
-- services/integration/workflow_designer/canvas_state.py: how a paste goes.
use vision_virtual_intellige.Prelude.{
  ◌≡◌, refl, String, Option, none, some, Bool-cases, Option-cases, ◌⊎◌, inl, inr, List, [], Dict,
  is_empty,
}
use vision_virtual_intellige.Designer.{
  DesignerNode, CanvasState, ClipboardPayload, push_history, paste, paste_from, paste_nodes, place,
  node_ids,
}

module _ {F V : Type 0} (add : F → F → F) (now : String) (s : CanvasState F V) (x y : F)
    (suffix : String) where
  -- A paste of `from` that placed `placed`.
  pub record IsPlaced (from : Option (ClipboardPayload F V)) (t : CanvasState F V) : Type 0 where
    pub clipboard : ClipboardPayload F V
    pub placed : Dict String × List (DesignerNode F V)
    pub copied : from ≡ some clipboard
    pub renamed :
        paste_nodes add x y suffix (node_ids s.layout.nodes) [] clipboard.nodes ≡ some placed
    pub result : t ≡ place (push_history now s) clipboard.edges placed suffix

  paste_from-cases :
      (from : Option (ClipboardPayload F V)) {t : CanvasState F V}
      → paste_from add now s x y suffix from ≡ some t
      → (t ≡ s) ⊎ IsPlaced from t
  unfolding paste_from
  paste_from-cases none h = inl (cc)
  paste_from-cases (some clipboard) h = elim (Bool-cases (is_empty clipboard.nodes)) [
    | inl empty ↦ let e = rw empty at h in inl (cc)
    | inr full ↦
        let e = rw full at h in
        elim (Option-cases
          (paste_nodes add x y suffix (node_ids s.layout.nodes) [] clipboard.nodes)) [
            | inl ran_out ↦ let e' = rw ran_out at e in absurd (cc)
            | inr (placed, renamed) ↦ inr (record {
              clipboard = clipboard;
              placed = placed;
              copied = refl;
              renamed = renamed;
              result = let e' = rw renamed at e in cc;
            })
          ]
  ]

  pub paste-cases :
      {t : CanvasState F V} → paste add now s x y suffix ≡ some t → (t ≡ s) ⊎ IsPlaced s.clipboard t
  unfolding paste
  paste-cases h = paste_from-cases s.clipboard h
