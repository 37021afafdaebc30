-- ===== src/ReadingOrder/Columns.antt =====
-- cpp/reading_order/docling_like_reading_order_backend.cpp: the columns of a group of blocks, and those in
-- which a box stands. An index is a native number; one that is -1 in the source is an `Option`. What
-- std::nth_element leaves at a place is what sorting leaves there.
pub mod Infer
pub mod Bounds
use technical_doc_parser.Prelude.{
  ℕ, zero, suc, ◌+◌, ◌-◌, ◌/◌, ◌%◌, Bool, true, false, ◌&&◌, ◌||◌, not, Option, none, some, List,
  [], ◌∷◌, ◌++◌, Text, ltb, leb, nat_beq, length, get_or, if◌then◌else◌,
}
use technical_doc_parser.Prelude.Int.{ℤ, pos}
use technical_doc_parser.Prelude.Double.{Double, nought, le, min, max}
use technical_doc_parser.Prelude.Sort.{stable_sort}
use technical_doc_parser.Document.Text.{BBox}
use technical_doc_parser.Document.Layout.{LayoutBlockType, LayoutBlock, unknown, text, list}

pub record PageElement {ℓ} (D : Type ℓ) : Type ℓ where
  pub layout_block_index : ℕ
  pub block : LayoutBlock D
  pub bbox : BBox D

pub record Column {ℓ} (D : Type ℓ) : Type ℓ where
  pub x0 : D
  pub x1 : D

pub record ColumnRange : Type 0 where
  pub first : ℕ
  pub last : ℕ

abbrev pub spanning : ColumnRange → Bool
spanning range = not (nat_beq range.first range.last)

unfoldable pub is_preferred_column_seed : LayoutBlockType → Bool
is_preferred_column_seed t = elim t [ text ↦ true | list ↦ true | unknown ↦ true | _ ↦ false ]

abbrev pub last_of : ℕ → List ℕ → ℕ
last_of last [] = last
last_of last (index ∷ indices) = last_of index indices

-- The indices from `index` on, as many as `n`.
abbrev pub upto : ℕ → ℕ → List ℕ
upto index zero = []
upto index (suc n) = index ∷ upto (suc index) n

module _ {ℓ} {D : Type ℓ} ⦃d : Double D⦄ where
  open d use {lit, add, sub, mul, div, abs, lt, eq, largest}

  -- `kEpsilon`
  abbrev pub epsilon : D
  epsilon = lit 1 1000

  abbrev pub blank_box : BBox D
  blank_box = record { x0 = nought; y0 = nought; x1 = nought; y1 = nought }

  abbrev pub blank_element : PageElement D
  blank_element = record {
    layout_block_index = 0;
    block = record {
      id = [];
      block_type = unknown;
      source_label = [];
      related_block_id = [];
      bbox = blank_box;
      confidence = lit 1 1;
      reading_order_hint = ℤ.negsuc 0;
      text_line_indices = [];
    };
    bbox = blank_box;
  }

  -- `elements[index]`, of an index in bounds.
  abbrev pub element_at : List (PageElement D) → ℕ → PageElement D
  element_at elements index = get_or elements index blank_element

  abbrev pub box_at : List (PageElement D) → ℕ → BBox D
  box_at elements index = (element_at elements index).bbox

  unfoldable pub bbox_width : BBox D → D
  bbox_width b = max nought (sub b.x1 b.x0)

  unfoldable pub bbox_height : BBox D → D
  bbox_height b = max nought (sub b.y1 b.y0)

  unfoldable pub center_x : BBox D → D
  center_x b = mul (add b.x0 b.x1) (lit 1 2)

  unfoldable pub center_y : BBox D → D
  center_y b = mul (add b.y0 b.y1) (lit 1 2)

  unfoldable pub horizontal_overlap : BBox D → Column D → D
  horizontal_overlap b column = max nought (sub (min b.x1 column.x1) (max b.x0 column.x0))

  unfoldable pub median : List D → D
  median [] = nought
  median (v ∷ values) =
      let sorted = stable_sort lt (v ∷ values) in
      let middle = length (v ∷ values) / 2 in
      let upper = get_or sorted middle nought in
      if nat_beq (length (v ∷ values) % 2) 0
      then mul (add (get_or sorted (middle - 1) nought) upper) (lit 1 2)
      else upper

  abbrev pub total_weight : D → List (D × D) → D
  total_weight total [] = total
  total_weight total ((value, weight) ∷ values) = total_weight (add total weight) values

  -- The loop over the sorted values; `last` is the value of the entry before them.
  unfoldable pub weighted_loop : D → D → D → List (D × D) → D
  weighted_loop total cumulative last [] = last
  weighted_loop total cumulative last ((value, weight) ∷ values) =
      let sum = add cumulative weight in
      let rest = weighted_loop total sum value values in
      if le total (mul sum (lit 2 1)) then value else rest

  unfoldable pub weighted_median : List (D × D) → D
  unfolding weighted_loop
  weighted_median values =
      let sorted = stable_sort (λ a b. lt a.0 b.0) values in
      weighted_loop (total_weight nought sorted) nought nought sorted

  -- The comparator of `sortedByPosition`.
  unfoldable pub position_less : List (PageElement D) → ℕ → ℕ → Bool
  position_less elements lhs rhs =
      let left = element_at elements lhs in
      let right = element_at elements rhs in
      if not (eq left.bbox.y0 right.bbox.y0)
      then lt left.bbox.y0 right.bbox.y0
      else if not (eq left.bbox.x0 right.bbox.x0)
      then lt left.bbox.x0 right.bbox.x0
      else ltb left.layout_block_index right.layout_block_index

  unfoldable pub sorted_by_position : List (PageElement D) → List ℕ → List ℕ
  unfolding position_less
  sorted_by_position elements indices = stable_sort (position_less elements) indices

  -- `mergeColumnPair` on the two columns.
  unfoldable pub merge_pair : Column D → Column D → Column D
  merge_pair left right = record { x0 = min left.x0 right.x0; x1 = max left.x1 right.x1 }

  unfoldable pub merge_column_pair : List (Column D) → ℕ → List (Column D)
  unfolding merge_pair
  merge_column_pair [] index = []
  merge_column_pair (c ∷ []) index = c ∷ []
  merge_column_pair (c ∷ e ∷ columns) zero = merge_pair c e ∷ columns
  merge_column_pair (c ∷ e ∷ columns) (suc index) = c ∷ merge_column_pair (e ∷ columns) index

  -- The columns of which `locateColumns` finds enough in the box, by their indices from `index`.
  unfoldable pub matched_columns : BBox D → ℕ → List (Column D) → List ℕ
  unfolding horizontal_overlap bbox_width
  matched_columns b index [] = []
  matched_columns b index (column ∷ columns) =
      let rest = matched_columns b (suc index) columns in
      let overlap = horizontal_overlap b column in
      let block_ratio = div overlap (max epsilon (bbox_width b)) in
      let column_ratio = div overlap (max epsilon (sub column.x1 column.x0)) in
      if le (lit 10 100) block_ratio || le (lit 20 100) column_ratio then index ∷ rest else rest

  unfoldable pub nearest_column : BBox D → ℕ → D → ℕ → List (Column D) → ℕ
  unfolding center_x
  nearest_column b nearest nearest_distance index [] = nearest
  nearest_column b nearest nearest_distance index (column ∷ columns) =
      let distance = abs (sub (center_x b) (mul (add column.x0 column.x1) (lit 1 2))) in
      let closer = lt distance nearest_distance in
      nearest_column b (if closer then index else nearest)
        (if closer then distance else nearest_distance) (suc index) columns

  unfoldable pub locate_columns : BBox D → List (Column D) → ColumnRange
  unfolding matched_columns nearest_column
  locate_columns b columns =
      let nearest = nearest_column b 0 largest 0 columns in
      if leb (length columns) 1
      then record { first = 0; last = 0 }
      else elim (matched_columns b 0 columns) [
        | [] ↦ record { first = nearest; last = nearest }
        | index ∷ indices ↦ record { first = index; last = last_of index indices }
      ]
