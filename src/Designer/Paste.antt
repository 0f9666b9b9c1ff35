-- ===== src/Designer/Paste.antt =====
-- services/integration/workflow_designer/canvas_state.py: `paste`. `add` is the source's addition of
-- floats.
use Prim.Native.String.{◌++◌ as str_append}
use vision_virtual_intellige.Prelude.{
  values, ℕ, zero, suc, ◌+◌, String, Option, none, some, List, [], ◌∷◌, ◌++◌, map, if◌then◌else◌,
  length, is_empty, contains, Dict, lookup, insert,
}
use vision_virtual_intellige.Designer.Models.{
  DesignerNode, DesignerEdge, ClipboardPayload, CanvasState,
}
use vision_virtual_intellige.Designer.Canvas.{push_history}
use vision_virtual_intellige.Prelude.{decimal}

-- The `while … suffix += 1` loop over the ids that are taken; `none` means that the fuel ran out.
unfoldable pub fresh_from : ℕ → List String → String → String → ℕ → Option String
fresh_from zero taken base new_id suffix = none
fresh_from (suc fuel) taken base new_id suffix =
    let rest = fresh_from fuel taken base (str_append base (decimal (suffix + 1))) (suffix + 1) in
    if contains new_id taken then rest else some new_id

-- Of one more numbered name than there are ids taken, one is free.
unfoldable pub fresh_id : List String → String → Option String
fresh_id taken base = fresh_from (suc (length taken + 1)) taken base base 1

infixl 5 ◌>>=◌
abbrev pub ◌>>=◌ : {A B : Type 0} → Option A → (A → Option B) → Option B
none >>= f = none
some a >>= f = f a

-- `if e.source in id_map and e.target in id_map: new_edges.append(…)`, given the two lookups.
unfoldable pub paste_edge :
    String → DesignerEdge → Option String → Option String → List DesignerEdge
paste_edge id_suffix e none target = []
paste_edge id_suffix e (some source) none = []
paste_edge id_suffix e (some source) (some target) =
    record e { id = str_append e.id id_suffix; source = source; target = target } ∷ []

-- The `for e in state.clipboard.edges` loop.
unfoldable pub paste_edges : String → Dict String → List DesignerEdge → List DesignerEdge
unfolding paste_edge
paste_edges id_suffix id_map [] = []
paste_edges id_suffix id_map (e ∷ es) =
    paste_edge id_suffix e (lookup e.source id_map) (lookup e.target id_map)
    ++ paste_edges id_suffix id_map es

module _ {F V : Type 0} where
  abbrev pub node_ids : List (DesignerNode F V) → List String
  node_ids nodes = map (λ n. n.id) nodes

  -- The `for n in state.clipboard.nodes` loop, on `id_map`; the result has `new_nodes` too.
  unfoldable pub paste_nodes :
      (F → F → F)
      → F
      → F
      → String
      → List String
      → Dict String
      → List (DesignerNode F V)
      → Option (Dict String × List (DesignerNode F V))
  paste_nodes add offset_x offset_y id_suffix existing id_map [] = some (id_map, [])
  paste_nodes add offset_x offset_y id_suffix existing id_map (n ∷ ns) = do
    new_id ← fresh_id (existing ++ values id_map) (str_append n.id id_suffix)
    (id_map', new_nodes) ←
        paste_nodes add offset_x offset_y id_suffix existing (insert n.id new_id id_map) ns
    some (id_map', record n { id = new_id; x = add n.x offset_x; y = add n.y offset_y } ∷ new_nodes)

  -- The assignments at the end of `paste`.
  unfoldable pub place :
      CanvasState F V
      → List DesignerEdge
      → Dict String × List (DesignerNode F V)
      → String
      → CanvasState F V
  unfolding paste_edges
  place s edges (id_map, new_nodes) id_suffix = record s {
    layout = record (s.layout) {
      nodes = s.layout.nodes ++ new_nodes;
      edges = s.layout.edges ++ paste_edges id_suffix id_map edges;
    };
    selection = record { node_ids = values id_map; edge_ids = []; group_ids = [] };
  }

  unfoldable pub paste_from :
      (F → F → F)
      → String
      → CanvasState F V
      → F
      → F
      → String
      → Option (ClipboardPayload F V)
      → Option (CanvasState F V)
  unfolding place
  paste_from add now state offset_x offset_y id_suffix none = some state
  paste_from add now state offset_x offset_y id_suffix (some clipboard) =
      if is_empty clipboard.nodes then some state else do
        placed ←
            paste_nodes add offset_x offset_y id_suffix (node_ids state.layout.nodes) []
              clipboard.nodes
        some (place (push_history now state) clipboard.edges placed id_suffix)

  unfoldable pub paste :
      (F → F → F) → String → CanvasState F V → F → F → String → Option (CanvasState F V)
  unfolding paste_from
  paste add now state offset_x offset_y id_suffix =
      paste_from add now state offset_x offset_y id_suffix state.clipboard
