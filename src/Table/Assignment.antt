-- ===== src/Table/Assignment.antt =====
-- cpp/table/table_text_assignment.cpp: the text of a page's lines goes to the cells of a table. The
-- cells of a table are the list that `assignTableText` makes of pointers to them; what it writes to a
-- cell is the cell's text and confidence.
pub mod Tokens
pub mod Filling
mod Tests
use technical_doc_parser.Prelude.{
  ℕ, zero, suc, ◌+◌, ◌<◌, Bool, true, false, ◌&&◌, ◌||◌, not, Option, none, some, List, [], ◌∷◌,
  ◌++◌, Text, ltb, length, map, replicate, if◌then◌else◌,
}
use technical_doc_parser.Prelude.Int.{ℤ, ltb_ℤ}
use technical_doc_parser.Prelude.Double.{Double, nought, of_nat, le, min, max}
use technical_doc_parser.Prelude.Sort.{stable_sort}
use technical_doc_parser.Document.Text.{BBox, TextSpan, TextLine, PageText}

abbrev pub is_empty {ℓ} : {A : Type ℓ} → List A → Bool
is_empty [] = true
is_empty (x ∷ xs) = false

pub record TableTextToken {ℓ} (D : Type ℓ) : Type ℓ where
  pub text : Text
  pub bbox : BBox D
  pub confidence : D

-- What the assignment reads and writes of a `TableCell`.
pub record TableCell {ℓ} (D : Type ℓ) : Type ℓ where
  pub row_index : ℤ
  pub column_index : ℤ
  pub text : Text
  pub bbox : BBox D
  pub confidence : D

pub record TableTextAssignmentStats : Type 0 where
  pub assigned_tokens : ℕ
  pub ambiguous_tokens : ℕ
  pub unassigned_tokens : ℕ

module _ {ℓ} {D : Type ℓ} ⦃d : Double D⦄ where
  open d use {lit, add, sub, mul, div, lt, is_finite}

  unfoldable pub valid_box : BBox D → Bool
  valid_box b =
      is_finite b.x0
      && is_finite b.y0
      && is_finite b.x1
      && is_finite b.y1
      && lt b.x0 b.x1
      && lt b.y0 b.y1

  unfoldable pub center_x : BBox D → D
  center_x b = add (mul b.x0 (lit 1 2)) (mul b.x1 (lit 1 2))

  unfoldable pub center_y : BBox D → D
  center_y b = add (mul b.y0 (lit 1 2)) (mul b.y1 (lit 1 2))

  unfoldable pub center_inside : BBox D → BBox D → Bool
  unfolding center_x center_y
  center_inside outer inner =
      le outer.x0 (center_x inner)
      && le (center_x inner) outer.x1
      && le outer.y0 (center_y inner)
      && le (center_y inner) outer.y1

  unfoldable pub intersection_area : BBox D → BBox D → D
  intersection_area a b =
      mul (max nought (sub (min a.x1 b.x1) (max a.x0 b.x0)))
        (max nought (sub (min a.y1 b.y1) (max a.y0 b.y0)))

  unfoldable pub center_distance : BBox D → BBox D → D
  unfolding center_x center_y
  center_distance cell token =
      let x = div (sub (center_x token) (center_x cell)) (sub cell.x1 cell.x0) in
      let y = div (sub (center_y token) (center_y cell)) (sub cell.y1 cell.y0) in
      add (mul x x) (mul y y)

  -- `collectTableTextTokens`
  unfoldable pub span_tokens : List (TextSpan D) → List (TableTextToken D)
  span_tokens [] = []
  span_tokens (span ∷ spans) =
      let rest = span_tokens spans in
      if is_empty span.text
      then rest
      else record { text = span.text; bbox = span.bbox; confidence = span.confidence } ∷ rest

  unfoldable pub line_tokens : TextLine D → List (TableTextToken D)
  unfolding span_tokens
  line_tokens line =
      if not (is_empty line.spans)
      then span_tokens line.spans
      else if is_empty line.text
      then []
      else record { text = line.text; bbox = line.bbox; confidence = line.confidence } ∷ []

  unfoldable pub collect_table_text_tokens : List (TextLine D) → List (TableTextToken D)
  unfolding line_tokens
  collect_table_text_tokens [] = []
  collect_table_text_tokens (line ∷ lines) = line_tokens line ++ collect_table_text_tokens lines

  -- `rank` and the operator < of its tuple, whose first component is the area here, so that the
  -- larger area comes first.
  unfoldable pub rank : TableCell D → TableTextToken D → D × D × ℤ × ℤ
  unfolding intersection_area center_distance
  rank cell token = (
    intersection_area cell.bbox token.bbox,
    center_distance cell.bbox token.bbox,
    cell.row_index,
    cell.column_index,
  )

  unfoldable pub rank_lt : D × D × ℤ × ℤ → D × D × ℤ × ℤ → Bool
  rank_lt (area, distance, row, column) (area', distance', row', column') =
      lt area' area
      || not (lt area area')
        && (lt distance distance'
            || not (lt distance' distance)
              && (ltb_ℤ row row' || not (ltb_ℤ row' row) && ltb_ℤ column column'))

  -- The loop over the cells from an index on: the best index with its rank, and the candidates.
  unfoldable pub best_cell :
      TableTextToken D
      → ℕ
      → List (TableCell D)
      → Option (ℕ × (D × D × ℤ × ℤ))
      → ℕ
      → Option (ℕ × (D × D × ℤ × ℤ)) × ℕ
  unfolding rank rank_lt valid_box center_inside
  best_cell token index [] best candidates = (best, candidates)
  best_cell token index (cell ∷ cells) best candidates =
      let here = rank cell token in
      let better : Bool = elim best [
        | none ↦ true
        | some (_, best_rank) ↦ rank_lt here best_rank
      ] in
      let skipped = best_cell token (index + 1) cells best candidates in
      let taken =
        best_cell token (index + 1) cells (if better then some (index, here) else best)
          (candidates + 1) in
      if not (valid_box cell.bbox) || not (center_inside cell.bbox token.bbox)
      then skipped
      else taken

  -- `matches[best].push_back(&token)`
  unfoldable pub push_at :
      ℕ → TableTextToken D → List (List (TableTextToken D)) → List (List (TableTextToken D))
  push_at index token [] = []
  push_at zero token (tokens ∷ matches) = (tokens ++ (token ∷ [])) ∷ matches
  push_at (suc index) token (tokens ∷ matches) = tokens ∷ push_at index token matches

  -- The loop over the tokens.
  unfoldable pub assign_tokens :
      BBox D
      → List (TableCell D)
      → List (TableTextToken D)
      → List (List (TableTextToken D))
      → TableTextAssignmentStats
      → List (List (TableTextToken D)) × TableTextAssignmentStats
  unfolding best_cell push_at
  assign_tokens box cells [] matches stats = (matches, stats)
  assign_tokens box cells (token ∷ tokens) matches stats =
      let (best, candidates) = best_cell token 0 cells none 0 in
      let skipped = assign_tokens box cells tokens matches stats in
      let missed =
        assign_tokens box cells tokens matches
          (record stats { unassigned_tokens = stats.unassigned_tokens + 1 }) in
      if is_empty token.text || not (valid_box token.bbox) then skipped else elim best [
        | some (index, _) ↦
            assign_tokens box cells tokens (push_at index token matches) (record stats {
              assigned_tokens = stats.assigned_tokens + 1;
              ambiguous_tokens = stats.ambiguous_tokens + (if ltb 1 candidates then 1 else 0);
            })
        | none ↦ if valid_box box && center_inside box token.bbox then missed else skipped
      ]
