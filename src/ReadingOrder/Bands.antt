-- ===== src/ReadingOrder/Bands.antt =====
-- cpp/reading_order/docling_like_reading_order_backend.cpp: `orderBand`, the edges between the blocks of a
-- band and their order. Of its result, the indices are what is used.
use technical_doc_parser.Prelude.{
  ℕ, suc, ◌+◌, ◌-◌, Bool, not, Option, none, some, List, [], ◌∷◌, ◌++◌, map, Text, bytes, ltb,
  length, get_or, set, replicate, if◌then◌else◌,
}
use technical_doc_parser.Prelude.Int.{ℤ, pos, ltb_ℤ, int_beq}
use technical_doc_parser.Prelude.Double.{Double}
use technical_doc_parser.Prelude.Sort.{stable_sort}
use technical_doc_parser.Document.Layout.{ReadingOrderPlacement, ReadingOrderTrace}
use technical_doc_parser.ReadingOrder.Columns.{
  PageElement, ColumnRange, spanning, epsilon, element_at, box_at, center_y, locate_columns,
  last_of, upto,
}
use technical_doc_parser.ReadingOrder.Columns.Infer.{infer_columns, keep}
use technical_doc_parser.ReadingOrder.Graph.{WeightedEdge, range_at, add_edge, record_edge_counts}
use technical_doc_parser.ReadingOrder.Topological.{stable_topological_order}

-- The blocks of each column, and those that span several.
unfoldable pub by_column : ℕ → List ColumnRange → List (List ℕ) × List ℕ → List (List ℕ) × List ℕ
by_column index [] split = split
by_column index (range ∷ ranges) (columns, wide) = by_column (suc index) ranges (
    if spanning range
    then (columns, wide ++ index ∷ [])
    else (set columns range.first (get_or columns range.first [] ++ index ∷ []), wide))

-- What a loop over neighbours in a list does, from an entry on.
abbrev pub neighbours {ℓ} : {A : Type ℓ} → (ℕ → ℕ → A → A) → ℕ → List ℕ → A → A
neighbours f before [] a = a
neighbours f before (after ∷ rest) a = neighbours f after rest (f before after a)

abbrev pub all_neighbours {ℓ} : {A : Type ℓ} → (ℕ → ℕ → A → A) → List ℕ → A → A
all_neighbours f [] a = a
all_neighbours f (first ∷ rest) a = neighbours f first rest a

module _ {ℓ} {D : Type ℓ} ⦃d : Double D⦄ (elements : List (PageElement D)) where
  open d use {lit, sub, abs, lt, eq}

  -- `vertical_order`
  unfoldable pub vertical_less : ℕ → ℕ → Bool
  unfolding center_y
  vertical_less lhs rhs =
      let left = box_at elements lhs in
      let right = box_at elements rhs in
      if not (eq (center_y left) (center_y right))
      then lt (center_y left) (center_y right)
      else if not (eq left.x0 right.x0)
      then lt left.x0 right.x0
      else ltb (element_at elements lhs).layout_block_index
          (element_at elements rhs).layout_block_index

  unfoldable pub same_column : ℕ → ℕ → List (WeightedEdge D) → List (WeightedEdge D)
  unfolding center_y add_edge
  same_column before after edges =
      let distance =
        abs (sub (center_y (box_at elements before)) (center_y (box_at elements after))) in
      if lt epsilon distance
      then add_edge edges before after (lit 1 1) (bytes "same_column")
      else edges

  -- The edge from the last block of the column before it.
  unfoldable pub column_flow : Option ℕ → List ℕ → List (WeightedEdge D) → List (WeightedEdge D)
  unfolding add_edge
  column_flow none column edges = edges
  column_flow (some back) [] edges = edges
  column_flow (some back) (front ∷ column) edges =
      add_edge edges back front (lit 80 100) (bytes "column_flow")

  abbrev pub back_of : Option ℕ → List ℕ → Option ℕ
  back_of previous [] = previous
  back_of previous (front ∷ column) = some (last_of front column)

  -- The loop over the sorted columns.
  unfoldable pub column_edges :
      Option ℕ → List (List ℕ) → List (WeightedEdge D) → List (WeightedEdge D)
  unfolding same_column column_flow
  column_edges previous [] edges = edges
  column_edges previous (column ∷ columns) edges =
      column_edges (back_of previous column) columns
        (column_flow previous column (all_neighbours same_column column edges))

  unfoldable pub spanning_geometry : ℕ → ℕ → List (WeightedEdge D) → List (WeightedEdge D)
  unfolding add_edge
  spanning_geometry before after edges =
      add_edge edges before after (lit 95 100) (bytes "spanning_geometry")

  -- The blocks of a column next above and below a height.
  unfoldable pub nearest : D → Option ℕ → List ℕ → Option ℕ × Option ℕ
  unfolding center_y
  nearest height above [] = (above, none)
  nearest height above (candidate ∷ column) =
      let rest = nearest height (some candidate) column in
      if lt (center_y (box_at elements candidate)) height then rest else (above, some candidate)

  unfoldable pub spanning_column : ℕ → List ℕ → List (WeightedEdge D) → List (WeightedEdge D)
  unfolding nearest spanning_geometry center_y
  spanning_column index column edges =
      let (above, below) = nearest (center_y (box_at elements index)) none column in
      let after_above : List (WeightedEdge D) = elim above [
        | none ↦ edges
        | some candidate ↦ spanning_geometry candidate index edges
      ] in
      elim below [
        | none ↦ after_above
        | some candidate ↦ spanning_geometry index candidate after_above
      ]

  -- The loop over the columns of a block that spans several.
  unfoldable pub spanning_columns :
      ℕ → List (List ℕ) → List ℕ → List (WeightedEdge D) → List (WeightedEdge D)
  unfolding spanning_column
  spanning_columns index columns [] edges = edges
  spanning_columns index columns (column_index ∷ rest) edges =
      spanning_columns index columns rest
        (spanning_column index (get_or columns column_index []) edges)

  unfoldable pub spanning_edges :
      List ColumnRange → List (List ℕ) → List ℕ → List (WeightedEdge D) → List (WeightedEdge D)
  unfolding spanning_columns
  spanning_edges ranges columns [] edges = edges
  spanning_edges ranges columns (index ∷ wide) edges =
      let range = range_at ranges index in
      spanning_edges ranges columns wide
        (spanning_columns index columns (upto range.first (range.last + 1 - range.first)) edges)

  abbrev pub hint_of : ℕ → ℤ
  hint_of index = (element_at elements index).block.reading_order_hint

  unfoldable pub model_hint : ℕ → ℕ → List (WeightedEdge D) → List (WeightedEdge D)
  unfolding add_edge
  model_hint before after edges =
      if int_beq (hint_of before) (hint_of after)
      then edges
      else add_edge edges before after (lit 25 100) (bytes "model_hint")

  unfoldable pub hinted : List ℕ
  hinted =
      stable_sort (λ lhs rhs. ltb_ℤ (hint_of lhs) (hint_of rhs))
        (keep (λ index. not (ltb_ℤ (hint_of index) (pos 0))) (upto 0 (length elements)))

  -- All the edges of a band.
  unfoldable pub band_edges : List ColumnRange → ℕ → List (WeightedEdge D)
  unfolding by_column vertical_less column_edges spanning_geometry spanning_edges model_hint hinted
  band_edges ranges column_count =
      let (filled, wide) = by_column 0 ranges (replicate column_count [], []) in
      let columns = map (stable_sort vertical_less) filled in
      let sorted = stable_sort vertical_less wide in
      let flow = column_edges none columns [] in
      let across = all_neighbours spanning_geometry sorted flow in
      all_neighbours model_hint hinted (spanning_edges ranges columns sorted across)

  unfoldable pub band_placements :
      Text → ℕ → List (PageElement D) → List ColumnRange → List ReadingOrderPlacement
  band_placements group band_index [] ranges = []
  band_placements group band_index (element ∷ rest) [] = []
  band_placements group band_index (element ∷ rest) (range ∷ ranges) =
      record {
        layout_block_id = element.block.id;
        group = group;
        band_index = band_index;
        column_start = range.first;
        column_end = range.last;
        parent_layout_block_id = [];
      }
      ∷ band_placements group band_index rest ranges

module _ {ℓ} {D : Type ℓ} ⦃d : Double D⦄ where
  -- `orderBand`
  unfoldable pub order_band :
      List (PageElement D) → List ℕ → Text → ℕ → ReadingOrderTrace D → List ℕ × ReadingOrderTrace D
  unfolding infer_columns locate_columns band_edges band_placements record_edge_counts
      stable_topological_order
  order_band group_elements [] group band_index trace = ([], trace)
  order_band group_elements (i ∷ indices) group band_index trace =
      let group_indices = i ∷ indices in
      let elements = map (element_at group_elements) group_indices in
      let columns = infer_columns elements (upto 0 (length elements)) in
      let column_count = if ltb (length columns) 1 then 1 else length columns in
      let ranges = map (λ e. locate_columns e.bbox columns) elements in
      let edges = band_edges elements ranges column_count in
      let (order, breaks) =
        stable_topological_order elements ranges column_count edges trace.cycle_breaks in
      (
        map (λ local. get_or group_indices local 0) order,
        record trace {
          placements =
              trace.placements ++ band_placements elements group band_index elements ranges;
          edge_counts = record_edge_counts edges trace.edge_counts;
          cycle_breaks = breaks;
        },
      )
