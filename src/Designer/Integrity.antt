-- ===== src/Designer/Integrity.antt =====
-- services/integration/workflow_designer/canvas_state.py: which operations keep every edge attached
-- to nodes of its layout.
use Prim.Native.String.{◌++◌ as str_append}
use vision_virtual_intellige.Prelude.{
  values, ◌≡◌, refl, subst, String, eq_iff, Bool, Bool-cases, true, not, ◌&&◌, Option, none, some,
  Option-cases, inl, inr, ◌⊎◌, List, [], ◌∷◌, ◌++◌, map, arith, contains, keep_if, Dict, insert,
  lookup, lookup-insert, IsSubset,
}
use vision_virtual_intellige.Designer.{
  DesignerNode, DesignerEdge, WorkflowLayout, CanvasSelection, node_ids, delete_from, paste_nodes,
  paste_edge, paste_edges, fresh_id,
}

-- Both ends of every edge are among the ids.
abbrev pub Attached : List String → List DesignerEdge → Type 0
Attached ids [] = Unit
Attached ids (e ∷ es) =
    (contains e.source ids ≡ true) × (contains e.target ids ≡ true) × Attached ids es

-- No edge of the layout dangles.
abbrev pub IsAttached : {F V : Type 0} → WorkflowLayout F V → Type 0
IsAttached layout = Attached (node_ids layout.nodes) layout.edges

pub Attached-mono :
    (ids more : List String) (es : List DesignerEdge)
    → IsSubset ids more
    → Attached ids es
    → Attached more es
Attached-mono ids more [] sub h = tt
Attached-mono ids more (e ∷ es) sub (s, t, h) =
    (sub e.source s, sub e.target t, Attached-mono ids more es sub h)

pub Attached-append :
    (ids : List String) (es fs : List DesignerEdge)
    → Attached ids es
    → Attached ids fs
    → Attached ids (es ++ fs)
Attached-append ids [] fs h k = k
Attached-append ids (e ∷ es) fs (s, t, h) k = (s, t, Attached-append ids es fs h k)

pub Attached-keep_if :
    (ids : List String) (p : DesignerEdge → Bool) (es : List DesignerEdge)
    → Attached ids es
    → Attached ids (keep_if p es)
Attached-keep_if ids p [] h = tt
Attached-keep_if ids p (e ∷ es) (s, t, h) = elim (Bool-cases (p e)) [
  | inl kept ↦ rw kept (s, t, Attached-keep_if ids p es h)
  | inr dropped ↦ rw dropped (Attached-keep_if ids p es h)
]

module _ {F V : Type 0} where
  pub contains-node_ids-keep_if :
      (i : String) (p : String → Bool) (nodes : List (DesignerNode F V))
      → contains i (node_ids (keep_if (λ n. p n.id) nodes)) ≡ (p i && contains i (node_ids nodes))
  contains-node_ids-keep_if i p [] = ground arith
  contains-node_ids-keep_if i p (n ∷ nodes) =
      ground (arith, eq_iff i n.id, contains-node_ids-keep_if i p nodes)

  -- The nodes that replace one by its id keep all ids.
  pub node_ids-map :
      (f : DesignerNode F V → DesignerNode F V) (nodes : List (DesignerNode F V))
      → ((n : DesignerNode F V) → (f n).id ≡ n.id)
      → node_ids (map f nodes) ≡ node_ids nodes
  node_ids-map f [] h = refl
  node_ids-map f (n ∷ nodes) h = λ i. h n i ∷ node_ids-map f nodes h i

  -- The edges that survive a deletion of nodes end in nodes that survive it.
  Attached-deleted :
      (gone edge_ids : List String) (nodes : List (DesignerNode F V)) (es : List DesignerEdge)
      → Attached (node_ids nodes) es
      → Attached (node_ids (keep_if (λ n. not (contains n.id gone)) nodes)) (
          keep_if
            (λ e.
              not (contains e.id edge_ids)
              && (not (contains e.source gone) && not (contains e.target gone)))
            es)
  Attached-deleted gone edge_ids nodes [] h = tt
  Attached-deleted gone edge_ids nodes (e ∷ es) (s, t, h) =
      let kept = λ (i : String). contains-node_ids-keep_if i (λ j. not (contains j gone)) nodes in
      ground (arith, kept e.source, kept e.target, Attached-deleted gone edge_ids nodes es h)

  pub delete_from-IsAttached :
      (selection : CanvasSelection) (layout : WorkflowLayout F V)
      → IsAttached layout
      → IsAttached (delete_from selection layout)
  unfolding delete_from
  delete_from-IsAttached selection layout h =
      Attached-deleted selection.node_ids selection.edge_ids layout.nodes layout.edges h

  -- What `id_map` maps to is the id of a new node, or was there before.
  pub paste_nodes-lookup :
      (add : F → F → F) (x y : F) (suffix : String) (existing : List String)
      (nodes : List (DesignerNode F V)) (id_map id_map' : Dict String)
      (new_nodes : List (DesignerNode F V)) (k v : String)
      → paste_nodes add x y suffix existing id_map nodes ≡ some (id_map', new_nodes)
      → lookup k id_map' ≡ some v
      → (contains v (node_ids new_nodes) ≡ true) ⊎ (lookup k id_map ≡ some v)
  unfolding paste_nodes
  paste_nodes-lookup add x y suffix existing [] id_map id_map' new_nodes k v h l =
      let e : id_map ≡ id_map' = cc in inr (rw e l)
  paste_nodes-lookup add x y suffix existing (n ∷ ns) id_map id_map' new_nodes k v h l =
      elim (Option-cases (fresh_id (existing ++ values id_map) (str_append n.id suffix))) [
        | inl ran_out ↦ let h' = rw ran_out at h in absurd (cc)
        | inr (new_id, found) ↦
            elim (Option-cases
              (paste_nodes add x y suffix existing (insert n.id new_id id_map) ns)) [
                | inl ran_out ↦ let h' = rw (found, ran_out) at h in absurd (cc)
                | inr ((final, rest), placed) ↦
                    let h' = rw (found, placed) at h in
                    let clone = record n { id = new_id; x = add n.x x; y = add n.y y } in
                    let e : clone ∷ rest ≡ new_nodes = cc in
                    let same : final ≡ id_map' = cc in
                    subst (λ ns. (contains v (node_ids ns) ≡ true) ⊎ (lookup k id_map ≡ some v)) e
                      (ground (
                        arith,
                        paste_nodes-lookup add x y suffix existing ns (insert n.id new_id id_map)
                            final rest k v placed (rw same l),
                        lookup-insert k n.id new_id id_map,
                        eq_iff v new_id,
                      ))
              ]
      ]

paste_edge-Attached :
    (suffix : String) (ids : List String) (e : DesignerEdge) (source target : Option String)
    → ((v : String) → source ≡ some v → contains v ids ≡ true)
    → ((v : String) → target ≡ some v → contains v ids ≡ true)
    → Attached ids (paste_edge suffix e source target)
unfolding paste_edge
paste_edge-Attached suffix ids e none target s t = tt
paste_edge-Attached suffix ids e (some source) none s t = tt
paste_edge-Attached suffix ids e (some source) (some target) s t =
    (s source refl, t target refl, tt)

-- The edges of a paste end in nodes that it added.
pub paste_edges-Attached :
    (suffix : String) (id_map : Dict String) (ids : List String) (es : List DesignerEdge)
    → ((k v : String) → lookup k id_map ≡ some v → contains v ids ≡ true)
    → Attached ids (paste_edges suffix id_map es)
unfolding paste_edges
paste_edges-Attached suffix id_map ids [] h = tt
paste_edges-Attached suffix id_map ids (e ∷ es) h =
    Attached-append ids (paste_edge suffix e (lookup e.source id_map) (lookup e.target id_map))
      (paste_edges suffix id_map es)
      (paste_edge-Attached suffix ids e (lookup e.source id_map) (lookup e.target id_map)
        (h e.source) (h e.target))
      (paste_edges-Attached suffix id_map ids es h)
