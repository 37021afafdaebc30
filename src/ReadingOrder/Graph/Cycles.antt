-- ===== src/ReadingOrder/Graph/Cycles.antt =====
-- cpp/reading_order/docling_like_reading_order_backend.cpp: `findCycleEdges`, a depth-first search.
use technical_doc_parser.Prelude.{
  ℕ, zero, suc, Bool, true, false, ◌&&◌, ◌||◌, not, Option, none, some, List, [], ◌∷◌, ◌++◌,
  nat_beq, length, get_or, set, replicate, if◌then◌else◌,
}
use technical_doc_parser.Prelude.Double.{Double}
use technical_doc_parser.ReadingOrder.Graph.{WeightedEdge, edge_at}

-- The state of a block is 0 before its visit, 1 in it, and 2 after it.
pub record Search : Type 0 where
  pub state : List ℕ
  pub parent_edge : List (Option ℕ)
  pub cycle : List ℕ

-- What an edge does to a visit: it ends, and has found a cycle or not, or it goes on.
pub data Visit : Type 0 where
  stop : Bool → Search → Visit
  go_on : Search → Visit

-- What a visit below another one does to it.
abbrev pub after_visit : Bool × Search → Visit
after_visit (true, s) = stop true s
after_visit (false, s) = go_on s

module _ {ℓ} {D : Type ℓ} ⦃d : Double D⦄ (edges : List (WeightedEdge D)) (emitted : List Bool) where
  -- The edges back from a block to the one where the cycle closes; `none` where a block has none.
  unfoldable pub trace_back : List (Option ℕ) → ℕ → ℕ → ℕ → List ℕ → Option (List ℕ)
  trace_back parents zero target current cycle = none
  trace_back parents (suc fuel) target current cycle = elim (nat_beq current target) [
    | true ↦ some cycle
    | false ↦ elim (get_or parents current none) [
      | none ↦ none
      | some incoming ↦
          trace_back parents fuel target (edge_at edges incoming).from (cycle ++ incoming ∷ [])
    ]
  ]

  unfoldable pub close_cycle : ℕ → ℕ → WeightedEdge D → Search → Visit
  unfolding trace_back
  close_cycle node index edge s =
      elim (trace_back s.parent_edge (suc (length emitted)) edge.to node (s.cycle ++ index ∷ [])) [
        | none ↦ stop false (record s { cycle = [] })
        | some cycle ↦ stop true (record s { cycle = cycle })
      ]

  abbrev pub below : ℕ → WeightedEdge D → Search → Search
  below index edge s = record s { parent_edge = set s.parent_edge edge.to (some index) }

  -- An edge of the loop; `visit` is the visit of a block below.
  unfoldable pub visit_edge : (ℕ → Search → Bool × Search) → ℕ → ℕ → WeightedEdge D → Search → Visit
  unfolding close_cycle
  visit_edge visit node index edge s =
      if not edge.active || not (nat_beq edge.from node) || get_or emitted edge.to false
      then go_on s
      else elim (get_or s.state edge.to 0) [
        | zero ↦ after_visit (visit edge.to (below index edge s))
        | suc zero ↦ close_cycle node index edge s
        | suc (suc n) ↦ go_on s
      ]

  unfoldable pub visit_edges :
      (ℕ → Search → Bool × Search) → ℕ → ℕ → List (WeightedEdge D) → Search → Bool × Search
  unfolding visit_edge
  visit_edges visit node index [] s = (false, record s { state = set s.state node 2 })
  visit_edges visit node index (edge ∷ rest) s = elim (visit_edge visit node index edge s) [
    | stop found s' ↦ (found, s')
    | go_on s' ↦ visit_edges visit node (suc index) rest s'
  ]

  unfoldable pub visit : ℕ → ℕ → Search → Bool × Search
  unfolding visit_edges
  visit zero node s = (false, s)
  visit (suc fuel) node s =
      visit_edges (visit fuel) node 0 edges (record s { state = set s.state node 1 })

  -- The loop over the blocks, from `node`.
  unfoldable pub visit_node : ℕ → Bool → Search → Visit
  unfolding visit
  visit_node node gone s =
      if not gone && nat_beq (get_or s.state node 0) 0
      then after_visit (visit (suc (length emitted)) node s)
      else go_on s

  unfoldable pub visit_nodes : ℕ → List Bool → Search → List ℕ
  unfolding visit_node
  visit_nodes node [] s = []
  visit_nodes node (gone ∷ flags) s = elim (visit_node node gone s) [
    | stop found s' ↦ s'.cycle
    | go_on s' ↦ visit_nodes (suc node) flags s'
  ]

  unfoldable pub find_cycle_edges : List ℕ
  unfolding visit_nodes
  find_cycle_edges = visit_nodes 0 emitted (record {
    state = replicate (length emitted) 0;
    parent_edge = replicate (length emitted) none;
    cycle = [];
  })
