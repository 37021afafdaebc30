-- ===== src/ReadingOrder/Graph.antt =====
-- cpp/reading_order/docling_like_reading_order_backend.cpp: the edges between the blocks of a band, and
-- the order that they give. The loop takes an edge away or emits a block in each pass, so the number of
-- both is enough fuel; a search visits a block once, so the number of blocks is enough for its depth.
pub mod Cycles
pub mod Edges
mod Tests
use technical_doc_parser.Prelude.{
  ℕ, zero, suc, ◌+◌, Bool, true, false, ◌&&◌, ◌||◌, not, Option, none, some, List, [], ◌∷◌, ◌++◌,
  Text, bytes, text_eq, ◌==◌, ltb, leb, nat_beq, length, get_or, set, replicate, if◌then◌else◌,
}
use technical_doc_parser.Prelude.Int.{ℤ, pos, ◌+ℤ◌, ◌-ℤ◌, int_beq}
use technical_doc_parser.Prelude.Dict.{lookup, insert}
use technical_doc_parser.Prelude.Double.{Double}
use technical_doc_parser.Document.Layout.{ReadingOrderCycleBreak, ReadingOrderTrace}
use technical_doc_parser.ReadingOrder.Columns.{PageElement, ColumnRange, element_at}

pub record WeightedEdge {ℓ} (D : Type ℓ) : Type ℓ where
  pub from : ℕ
  pub to : ℕ
  pub confidence : D
  pub reason : Text
  pub active : Bool

-- `operator<` of std::string.
abbrev pub text_less : Text → Text → Bool
text_less s [] = false
text_less [] (c ∷ t) = true
text_less (b ∷ s) (c ∷ t) = ltb b c || (nat_beq b c && text_less s t)

abbrev pub range_at : List ColumnRange → ℕ → ColumnRange
range_at ranges index = get_or ranges index (record { first = 0; last = 0 })

-- `++counts[reason]`
unfoldable pub count_up : Text → List (Text × ℕ) → List (Text × ℕ)
count_up reason counts = elim (lookup reason counts) [
  | none ↦ insert reason 1 counts
  | some n ↦ insert reason (n + 1) counts
]

-- The loops that look for the first of the indices that pass, in the order of `less`.
unfoldable pub pick : (ℕ → Bool) → (ℕ → ℕ → Bool) → Option ℕ → ℕ → ℕ → Option ℕ
pick passes less best index zero = best
pick passes less best index (suc n) =
    let better = passes index && elim best [ none ↦ true | some b ↦ less index b ] in
    pick passes less (if better then some index else best) (suc index) n

module _ {ℓ} {D : Type ℓ} ⦃d : Double D⦄ where
  open d use {lt, eq, lit}

  -- `addEdge`, on the edges that are not the one looked for until one is.
  unfoldable pub update_edge : ℕ → ℕ → D → Text → List (WeightedEdge D) → List (WeightedEdge D)
  update_edge from to confidence reason [] =
      record { from = from; to = to; confidence = confidence; reason = reason; active = true } ∷ []
  update_edge from to confidence reason (edge ∷ edges) =
      let rest = update_edge from to confidence reason edges in
      if not (nat_beq edge.from from) || not (nat_beq edge.to to)
      then edge ∷ rest
      else if lt edge.confidence confidence
      then record edge { confidence = confidence; reason = reason } ∷ edges
      else edge ∷ edges

  unfoldable pub add_edge : List (WeightedEdge D) → ℕ → ℕ → D → Text → List (WeightedEdge D)
  unfolding update_edge
  add_edge edges from to confidence reason =
      if nat_beq from to then edges else update_edge from to confidence reason edges

  unfoldable pub comes_before : List (PageElement D) → List ColumnRange → ℕ → ℕ → ℕ → Bool
  comes_before elements ranges column_count lhs rhs =
      let left = element_at elements lhs in
      let right = element_at elements rhs in
      let left_first = (range_at ranges lhs).first in
      let right_first = (range_at ranges rhs).first in
      if ltb 1 column_count && not (nat_beq left_first right_first)
      then ltb left_first right_first
      else if not (eq left.bbox.y0 right.bbox.y0)
      then lt left.bbox.y0 right.bbox.y0
      else if not (eq left.bbox.x0 right.bbox.x0)
      then lt left.bbox.x0 right.bbox.x0
      else ltb left.layout_block_index right.layout_block_index

  unfoldable pub record_edge_counts : List (WeightedEdge D) → List (Text × ℕ) → List (Text × ℕ)
  unfolding count_up
  record_edge_counts [] counts = counts
  record_edge_counts (edge ∷ edges) counts = record_edge_counts edges (count_up edge.reason counts)

  abbrev pub no_edge : WeightedEdge D
  no_edge = record { from = 0; to = 0; confidence = lit 0 1; reason = []; active = false }

  abbrev pub edge_at : List (WeightedEdge D) → ℕ → WeightedEdge D
  edge_at edges index = get_or edges index no_edge
