-- ===== src/Designer/Pasted.antt =====
-- services/integration/workflow_designer/canvas_state.py: a paste gives its nodes ids of their own.
use Prim.Native.String.{◌++◌ as str_append}
use mathlib.Core.List.{map-append}
use mathlib.Core.Bool.{false≢true}
use vision_virtual_intellige.Prelude.{
  values, ◌≡◌, ◌≢◌, refl, sym, subst, String, ◌==◌, eq_iff, Bool-cases, true, false, ◌||◌, Option,
  none, some, Option-cases, inl, inr, List, [], ◌∷◌, ◌++◌, arith, contains, contains-append, Dict,
  insert, has_key, has_key-insert, IsDistinct, append-IsDistinct, is_empty,
}
use vision_virtual_intellige.Designer.{
  DesignerNode, CanvasState, ClipboardPayload, push_history, paste, paste_from, paste_nodes, place,
  node_ids, fresh_id,
}
use vision_virtual_intellige.Designer.Fresh.{fresh_id-ne-none, fresh_id-free}
use vision_virtual_intellige.Designer.Clipboard.{paste-cases}

-- A key that is not in the dictionary adds its value to the values.
contains-values-insert :
    (y k v : String) (d : Dict String)
    → has_key k d ≡ false
    → contains y (values (insert k v d)) ≡ (contains y (values d) || y == v)
contains-values-insert y k v [] h = ground arith
contains-values-insert y k v ((j, w) ∷ d) h = ground (arith, contains-values-insert y k v d)

-- The ids of the clipboard's nodes.
abbrev pub copied_ids : {F V : Type 0} → Option (ClipboardPayload F V) → List String
copied_ids none = []
copied_ids (some clipboard) = node_ids clipboard.nodes

module _ {F V : Type 0} (add : F → F → F) (x y : F) (suffix : String) (existing : List String) where
  paste_nodes-ne-none :
      (nodes : List (DesignerNode F V)) (id_map : Dict String)
      → paste_nodes add x y suffix existing id_map nodes ≢ none
  unfolding paste_nodes
  paste_nodes-ne-none [] id_map = cc
  paste_nodes-ne-none (n ∷ ns) id_map =
      elim (Option-cases (fresh_id (existing ++ values id_map) (str_append n.id suffix))) [
        | inl ran_out ↦
            absurd (fresh_id-ne-none (existing ++ values id_map) (str_append n.id suffix) ran_out)
        | inr (new_id, found) ↦
            elim (Option-cases
              (paste_nodes add x y suffix existing (insert n.id new_id id_map) ns)) [
                | inl ran_out ↦ absurd (paste_nodes-ne-none ns (insert n.id new_id id_map) ran_out)
                | inr (placed, rest) ↦ rw (found, rest) (λ e. cc)
              ]
      ]

  -- The new ids are distinct, and neither taken by the layout nor given to an earlier node.
  abbrev IsFresh : Dict String → List (DesignerNode F V) → Type 0
  IsFresh id_map new_nodes =
      IsDistinct (node_ids new_nodes)
      × ((i : String)
          → contains i (node_ids new_nodes) ≡ true
          → (contains i existing ≡ false) × (contains i (values id_map) ≡ false))

  paste_nodes-IsFresh :
      (nodes : List (DesignerNode F V)) (id_map id_map' : Dict String)
      (new_nodes : List (DesignerNode F V))
      → IsDistinct (node_ids nodes)
      → ((i : String) → contains i (node_ids nodes) ≡ true → has_key i id_map ≡ false)
      → paste_nodes add x y suffix existing id_map nodes ≡ some (id_map', new_nodes)
      → IsFresh id_map new_nodes
  unfolding paste_nodes
  paste_nodes-IsFresh [] id_map id_map' new_nodes d k h =
      let e : ◌≡◌ {A = List (DesignerNode F V)} [] new_nodes = cc in
      subst (IsFresh id_map) e (tt, λ i m. absurd (false≢true m))
  paste_nodes-IsFresh (n ∷ ns) id_map id_map' new_nodes d k h =
      elim (Option-cases (fresh_id (existing ++ values id_map) (str_append n.id suffix))) [
        | inl ran_out ↦
            absurd (fresh_id-ne-none (existing ++ values id_map) (str_append n.id suffix) ran_out)
        | inr (new_id, found) ↦
            elim (Option-cases
              (paste_nodes add x y suffix existing (insert n.id new_id id_map) ns)) [
                | inl ran_out ↦ absurd (paste_nodes-ne-none ns (insert n.id new_id id_map) ran_out)
                | inr ((final, rest), placed) ↦
                    let h' = rw (found, placed) at h in
                    let (distinct, apart) =
                      paste_nodes-IsFresh ns (insert n.id new_id id_map) final rest d.1
                        (λ i m.
                          ground (arith, k i, eq_iff i n.id, has_key-insert i n.id new_id id_map))
                        placed in
                    let clone = record n { id = new_id; x = add n.x x; y = add n.y y } in
                    let e : clone ∷ rest ≡ new_nodes = cc in
                    let free =
                      fresh_id-free (existing ++ values id_map) (str_append n.id suffix) found in
                    let values_of = λ (i : String).
                      contains-values-insert i n.id new_id id_map
                        (k n.id (ground (arith, eq_iff n.id n.id))) in
                    subst (IsFresh id_map) e (
                      (
                        ground (arith, apart new_id, values_of new_id, eq_iff new_id new_id),
                        distinct,
                      ),
                      λ i m. ground (
                        arith,
                        apart i,
                        values_of i,
                        eq_iff i new_id,
                        contains-append new_id existing (values id_map),
                      ),
                    )
              ]
      ]

module _ {F V : Type 0} (add : F → F → F) (now : String) (s : CanvasState F V) (x y : F)
    (suffix : String) where
  paste_from-ne-none :
      (from : Option (ClipboardPayload F V)) → paste_from add now s x y suffix from ≢ none
  unfolding paste_from
  paste_from-ne-none none = cc
  paste_from-ne-none (some clipboard) = elim (Bool-cases (is_empty clipboard.nodes)) [
    | inl empty ↦ rw empty (λ e. cc)
    | inr full ↦
        rw full
          (elim (Option-cases
            (paste_nodes add x y suffix (node_ids s.layout.nodes) [] clipboard.nodes)) [
              | inl ran_out ↦ absurd (
                  paste_nodes-ne-none add x y suffix (node_ids s.layout.nodes) clipboard.nodes []
                    ran_out)
              | inr (placed, renamed) ↦ rw renamed (λ e. cc)
            ])
  ]

  -- A paste always ends with a state: the search for free ids does not run out.
  pub paste-ne-none : paste add now s x y suffix ≢ none
  unfolding paste
  paste-ne-none = paste_from-ne-none s.clipboard

  -- If the layout's node ids are distinct, and so are the clipboard's, the layout's node ids are
  -- distinct after the paste too.
  pub paste-IsDistinct :
      {t : CanvasState F V}
      → IsDistinct (node_ids s.layout.nodes)
      → IsDistinct (copied_ids s.clipboard)
      → paste add now s x y suffix ≡ some t
      → IsDistinct (node_ids t.layout.nodes)
  unfolding place push_history
  paste-IsDistinct {t} d c h = elim (paste-cases add now s x y suffix h) [
    | inl same ↦ subst (λ u. IsDistinct (node_ids u.layout.nodes)) (sym same) d
    | inr p ↦
        let (id_map, new_nodes) = p.placed in
        let (distinct, apart) =
          paste_nodes-IsFresh add x y suffix (node_ids s.layout.nodes) p.clipboard.nodes [] id_map
            new_nodes (subst (λ o. IsDistinct (copied_ids o)) p.copied c) (λ i m. refl) p.renamed in
        subst (λ u. IsDistinct (node_ids u.layout.nodes)) (sym p.result)
          (rw (map-append (λ (n : DesignerNode F V). n.id) s.layout.nodes new_nodes) (
            append-IsDistinct (node_ids s.layout.nodes) (node_ids new_nodes) d distinct
              (λ i m. (apart i m).0)))
  ]
