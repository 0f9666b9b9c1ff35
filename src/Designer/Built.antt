-- ===== src/Designer/Built.antt =====
-- services/integration/workflow_designer/graph_builder.py: what the built graph keeps of a layout.
use vision_virtual_intellige.Prelude.{
  ◌≡◌, refl, ap, ◌∙◌, String, ◌==◌, Bool, Bool-cases, inl, inr, true, ◌&&◌, ◌↔◌, Option, none, some,
  List, [], ◌∷◌, map, arith, contains, keep_if, if◌then◌else◌,
}
use vision_virtual_intellige.Designer.{
  DesignerNode, DesignerEdge, WorkflowLayout, CanvasState, node_ids, node_entry, edge_entry,
  build_edges, build_entry, build_graph, push_history, move_node,
}
use vision_virtual_intellige.Designer.Integrity.{Attached, IsAttached, node_ids-map}
use vision_virtual_intellige.Designer.Careful.{CarefulSession, CarefulSession-IsSound}

-- Both ends of the edge are among the ids.
abbrev pub is_attached : List String → DesignerEdge → Bool
is_attached ids e = contains e.source ids && contains e.target ids

build_edges-kept :
    (ids : List String) (es : List DesignerEdge)
    → (build_edges ids es).0 ≡ map edge_entry (keep_if (is_attached ids) es)
unfolding build_edges
build_edges-kept ids [] = refl
build_edges-kept ids (e ∷ es) = elim (Bool-cases (contains e.source ids)) [
  | inl s ↦ elim (Bool-cases (contains e.target ids)) [
    | inl t ↦ rw (s, t) (ap (◌∷◌ (edge_entry e)) (build_edges-kept ids es))
    | inr t ↦ rw (s, t) (build_edges-kept ids es)
  ]
  | inr s ↦ rw s (build_edges-kept ids es)
]

keep_if-Attached :
    (ids : List String) (es : List DesignerEdge)
    → Attached ids es
    → keep_if (is_attached ids) es ≡ es
keep_if-Attached ids [] h = refl
keep_if-Attached ids (e ∷ es) (s, t, h) = rw (s, t) (ap (◌∷◌ e) (keep_if-Attached ids es h))

build_entry_lem :
    (i : String) (ids : List String) (entry : Option String)
    → ((build_entry ids entry).0 ≡ some i) ↔ ((entry ≡ some i) × (contains i ids ≡ true))
unfolding build_entry
build_entry_lem i ids none = (λ h. cc, λ h. cc)
build_entry_lem i ids (some entry) = (λ h. ground arith, λ h. ground arith)

module _ {F V : Type 0} where
  -- The built graph has exactly the edges whose ends are both nodes of the layout, in their order, and
  -- it starts at a node exactly when the layout does and the node exists.
  pub build_graph_lem :
      (i : String) (layout : WorkflowLayout F V)
      → let ids = node_ids layout.nodes in
        let graph = build_graph layout in
        (graph.edges ≡ map edge_entry (keep_if (is_attached ids) layout.edges))
        × ((graph.entry_point ≡ some i)
            ↔ ((layout.entry_node_id ≡ some i) × (contains i ids ≡ true)))
  unfolding build_graph
  build_graph_lem i layout =
      let ids = node_ids layout.nodes in
      (build_edges-kept ids layout.edges, build_entry_lem i ids layout.entry_node_id)

  -- After an editing session that starts from a layout without dangling edges and adds none, the built
  -- graph has every edge of the canvas.
  pub CarefulSession-build_graph :
      (add : F → F → F) {layout : WorkflowLayout F V} {s : CanvasState F V}
      → IsAttached layout
      → CarefulSession add layout s
      → (build_graph s.layout).edges ≡ map edge_entry s.layout.edges
  unfolding build_graph
  CarefulSession-build_graph add {s} h session =
      let ids = node_ids s.layout.nodes in
      let sound = CarefulSession-IsSound add h session in
      build_edges-kept ids s.layout.edges
      ∙ ap (map edge_entry) (keep_if-Attached ids s.layout.edges sound.layout)

  node_entry-map :
      (f : DesignerNode F V → DesignerNode F V) (nodes : List (DesignerNode F V))
      → ((n : DesignerNode F V) → node_entry (f n) ≡ node_entry n)
      → map node_entry (map f nodes) ≡ map node_entry nodes
  node_entry-map f [] h = refl
  node_entry-map f (n ∷ nodes) h = λ i. h n i ∷ node_entry-map f nodes h i

  -- Moving a node on the canvas does not change the built graph.
  pub build_graph-move_node :
      (now : String) (s : CanvasState F V) (id : String) (x y : F)
      → build_graph (move_node now s id x y).layout ≡ build_graph s.layout
  unfolding build_graph move_node push_history
  build_graph-move_node now s id x y =
      let moved = λ (n : DesignerNode F V). if n.id == id then record n { x = x; y = y } else n in
      rw
        (
          node_ids-map moved s.layout.nodes
              (λ n. elim (Bool-cases (n.id == id)) [ inl e ↦ rw e refl | inr e ↦ rw e refl ]),
          node_entry-map moved s.layout.nodes
              (λ n. elim (Bool-cases (n.id == id)) [ inl e ↦ rw e refl | inr e ↦ rw e refl ]),
        )
        refl
