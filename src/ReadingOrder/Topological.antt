-- ===== src/ReadingOrder/Topological.antt =====
-- cpp/reading_order/docling_like_reading_order_backend.cpp: `stableTopologicalOrder`. A pass that finds no
-- block to emit has no next state; in the source that would be a write out of bounds.
pub mod Active
pub mod Flags
pub mod Complete
use technical_doc_parser.Prelude.{
  ℕ, zero, suc, ◌+◌, Bool, true, false, ◌&&◌, ◌||◌, not, Option, none, some, List, [], ◌∷◌, ◌++◌,
  Text, text_eq, ◌==◌, leb, ltb, nat_beq, length, get_or, set, replicate, if◌then◌else◌,
}
use technical_doc_parser.Prelude.Int.{ℤ, pos, ◌+ℤ◌, ◌-ℤ◌, int_beq}
use technical_doc_parser.Prelude.Double.{Double}
use technical_doc_parser.Document.Layout.{ReadingOrderCycleBreak}
use technical_doc_parser.ReadingOrder.Columns.{PageElement, ColumnRange, element_at}
use technical_doc_parser.ReadingOrder.Graph.{WeightedEdge, edge_at, text_less, pick, comes_before}
use technical_doc_parser.ReadingOrder.Graph.Cycles.{find_cycle_edges}

-- The variables of the loop.
pub record Progress {ℓ} (D : Type ℓ) : Type ℓ where
  pub indegree : List ℤ
  pub emitted : List Bool
  pub order : List ℕ
  pub edges : List (WeightedEdge D)
  pub cycle_breaks : List (ReadingOrderCycleBreak D)

abbrev pub add_at : ℤ → ℕ → List ℤ → List ℤ
add_at n index values = set values index (get_or values index (pos 0) +ℤ n)

module _ {ℓ} {D : Type ℓ} ⦃d : Double D⦄ where
  open d use {lt}

  unfoldable pub indegrees : List (WeightedEdge D) → List ℤ → List ℤ
  indegrees [] degrees = degrees
  indegrees (edge ∷ edges) degrees = indegrees edges (add_at (pos 1) edge.to degrees)

  -- `operator<` of the two tuples, of which the confidences are compared first.
  unfoldable pub weaker : WeightedEdge D → WeightedEdge D → Bool
  weaker a b =
      lt a.confidence b.confidence
      || (not (lt b.confidence a.confidence)
          && (text_less a.reason b.reason
              || (a.reason == b.reason
                  && (ltb a.from b.from || (nat_beq a.from b.from && ltb a.to b.to)))))

  unfoldable pub weakest_edge : List (WeightedEdge D) → Option ℕ → List ℕ → Option ℕ
  unfolding weaker
  weakest_edge edges weakest [] = weakest
  weakest_edge edges weakest (index ∷ indices) =
      let next : Option ℕ = elim weakest [
        | none ↦ some index
        | some w ↦ if weaker (edge_at edges index) (edge_at edges w) then some index else some w
      ] in
      weakest_edge edges next indices

  unfoldable pub release : ℕ → List Bool → List (WeightedEdge D) → List ℤ → List ℤ
  release next emitted [] degrees = degrees
  release next emitted (edge ∷ edges) degrees =
      let free = edge.active && nat_beq edge.from next && not (get_or emitted edge.to false) in
      release next emitted edges (if free then add_at (ℤ.negsuc 0) edge.to degrees else degrees)

  unfoldable pub emit : ℕ → Progress D → Progress D
  unfolding release
  emit next s =
      let emitted = set s.emitted next true in
      record s {
        emitted = emitted;
        order = s.order ++ next ∷ [];
        indegree = release next emitted s.edges s.indegree;
      }

  unfoldable pub break_edge : List (PageElement D) → ℕ → Progress D → Progress D
  break_edge elements index s =
      let edge = edge_at s.edges index in
      record s {
        edges = set s.edges index (record edge { active = false });
        indegree = add_at (ℤ.negsuc 0) edge.to s.indegree;
        cycle_breaks =
            s.cycle_breaks
            ++ record {
              from_layout_block_id = (element_at elements edge.from).block.id;
              to_layout_block_id = (element_at elements edge.to).block.id;
              reason = edge.reason;
              confidence = edge.confidence;
            }
              ∷ [];
      }

  module _ (elements : List (PageElement D)) (ranges : List ColumnRange) (column_count : ℕ) where
    unfoldable pub ready : Progress D → ℕ → Bool
    ready s index =
        not (get_or s.emitted index false) && int_beq (get_or s.indegree index (pos 0)) (pos 0)

    unfoldable pub pending : Progress D → ℕ → Bool
    pending s index = not (get_or s.emitted index false)

    -- The body of the loop.
    unfoldable pub pass : Progress D → Option (Progress D)
    unfolding ready pending pick comes_before emit break_edge weakest_edge find_cycle_edges
    pass s =
        let less = comes_before elements ranges column_count in
        elim (pick (ready s) less none 0 (length elements)) [
          | some next ↦ some (emit next s)
          | none ↦ elim (weakest_edge s.edges none (find_cycle_edges s.edges s.emitted)) [
            | some index ↦ some (break_edge elements index s)
            | none ↦ elim (pick (pending s) less none 0 (length elements)) [
              | some next ↦ some (emit next s)
              | none ↦ none
            ]
          ]
        ]

    unfoldable pub topological_loop : ℕ → Progress D → Progress D
    unfolding pass
    topological_loop zero s = s
    topological_loop (suc fuel) s = elim (leb (length elements) (length s.order)) [
      | true ↦ s
      | false ↦ elim (pass s) [ none ↦ s | some next ↦ topological_loop fuel next ]
    ]

    unfoldable pub start_order :
        List (WeightedEdge D) → List (ReadingOrderCycleBreak D) → Progress D
    unfolding indegrees
    start_order edges cycle_breaks = record {
      indegree = indegrees edges (replicate (length elements) (pos 0));
      emitted = replicate (length elements) false;
      order = [];
      edges = edges;
      cycle_breaks = cycle_breaks;
    }

    -- `stableTopologicalOrder`: the order, and the cycle breaks of the trace.
    unfoldable pub stable_topological_order :
        List (WeightedEdge D)
        → List (ReadingOrderCycleBreak D)
        → List ℕ × List (ReadingOrderCycleBreak D)
    unfolding topological_loop start_order
    stable_topological_order edges cycle_breaks =
        let s =
          topological_loop (length elements + length edges) (start_order edges cycle_breaks) in
        (s.order, s.cycle_breaks)
