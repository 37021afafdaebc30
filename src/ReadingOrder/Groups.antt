-- ===== src/ReadingOrder/Groups.antt =====
-- cpp/reading_order/docling_like_reading_order_backend.cpp: `predictGroupOrder`, the bands of a group of
-- blocks between those that span all columns.
pub mod Consumed
pub mod Complete
use technical_doc_parser.Prelude.{
  ℕ, zero, suc, ◌+◌, ◌-◌, Bool, true, false, ◌&&◌, ◌||◌, not, Option, none, some, List, [], ◌∷◌,
  ◌++◌, Text, ltb, leb, nat_beq, length, get_or, set, replicate, if◌then◌else◌,
}
use technical_doc_parser.Prelude.Double.{Double, le, nought}
use technical_doc_parser.Document.Text.{BBox}
use technical_doc_parser.Document.Layout.{ReadingOrderPlacement, ReadingOrderTrace}
use technical_doc_parser.ReadingOrder.Columns.{
  PageElement, Column, ColumnRange, element_at, box_at, bbox_width, center_y, locate_columns,
  sorted_by_position, upto,
}
use technical_doc_parser.ReadingOrder.Columns.Infer.{infer_columns, keep}
use technical_doc_parser.ReadingOrder.Bands.{order_band}

-- The band index, the trace, and the order so far.
pub record Grouping {ℓ} (D : Type ℓ) : Type ℓ where
  pub next_band_index : ℕ
  pub trace : ReadingOrderTrace D
  pub order : List ℕ

module _ {ℓ} {D : Type ℓ} ⦃d : Double D⦄ where
  open d use {lit, sub, mul, lt}

  abbrev pub right_edge : Column D → List (Column D) → D
  right_edge column [] = column.x1
  right_edge column (next ∷ columns) = right_edge next columns

  unfoldable pub spans_all_columns : BBox D → List (Column D) → Bool
  unfolding locate_columns bbox_width
  spans_all_columns b [] = false
  spans_all_columns b (column ∷ columns) =
      let range = locate_columns b (column ∷ columns) in
      let content_width = sub (right_edge column columns) column.x0 in
      if ltb (length (column ∷ columns)) 2
      then false
      else nat_beq range.first 0
        && nat_beq range.last (length columns)
        && le (mul content_width (lit 55 100)) (bbox_width b)

  module _ (elements : List (PageElement D)) (group : Text) where
    -- The loop that fills a band, and the flags of what is consumed.
    unfoldable pub take_band : D → List ℕ → List Bool → List ℕ × List Bool
    unfolding center_y
    take_band separator_y [] consumed = ([], consumed)
    take_band separator_y (index ∷ remaining) consumed =
        let takes =
          not (get_or consumed index false) && lt (center_y (box_at elements index)) separator_y in
        let (band, flags) =
          take_band separator_y remaining (if takes then set consumed index true else consumed) in
        if takes then (index ∷ band, flags) else (band, flags)

    -- `append_band`
    unfoldable pub append_band : List ℕ → Grouping D → Grouping D
    unfolding order_band
    append_band [] s = s
    append_band (index ∷ band) s =
        let (indices, trace) = order_band elements (index ∷ band) group s.next_band_index s.trace in
        record {
          next_band_index = s.next_band_index + 1;
          trace = trace;
          order = s.order ++ indices;
        }

    unfoldable pub append_separator : ℕ → ℕ → Grouping D → Grouping D
    append_separator column_count separator s = record {
      next_band_index = s.next_band_index + 1;
      trace = record s.trace {
        placements =
            s.trace.placements
            ++ record {
              layout_block_id = (element_at elements separator).block.id;
              group = group;
              band_index = s.next_band_index;
              column_start = 0;
              column_end = column_count - 1;
              parent_layout_block_id = [];
            }
              ∷ [];
      };
      order = s.order ++ separator ∷ [];
    }

    -- The loop over the separators, and the band behind the last.
    unfoldable pub separate : ℕ → List ℕ → List ℕ → List Bool → Grouping D → Grouping D
    unfolding take_band append_band append_separator center_y
    separate column_count remaining [] consumed s =
        append_band (keep (λ index. not (get_or consumed index false)) remaining) s
    separate column_count remaining (separator ∷ separators) consumed s =
        let (band, flags) = take_band (center_y (box_at elements separator)) remaining consumed in
        separate column_count remaining separators (set flags separator true)
          (append_separator column_count separator (append_band band s))

    -- `predictGroupOrder`
    unfoldable pub predict_group_order : ℕ → ReadingOrderTrace D → Grouping D
    unfolding infer_columns spans_all_columns sorted_by_position separate
    predict_group_order next_band_index trace =
        let all_indices = upto 0 (length elements) in
        let columns = infer_columns elements all_indices in
        let spans : ℕ → Bool = λ index. spans_all_columns (box_at elements index) columns in
        separate (length columns) (keep (λ index. not (spans index)) all_indices)
          (sorted_by_position elements (keep spans all_indices)) (replicate (length elements) false)
          (record { next_band_index = next_band_index; trace = trace; order = [] })
