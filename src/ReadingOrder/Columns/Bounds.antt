-- ===== src/ReadingOrder/Columns/Bounds.antt =====
-- cpp/reading_order/docling_like_reading_order_backend.cpp: how many columns there are, and that the
-- columns of a box are among them.
use technical_doc_parser.Prelude.{
  ℕ, zero, suc, ◌+◌, ◌≤◌, ◌<◌, ◌≡◌, refl, subst, ◌||◌, ◌⊎◌, inl, inr, List, [], ◌∷◌, length, ltb,
  leb, ltb→lt, arith, if◌then◌else◌, Bool-cases,
}
use technical_doc_parser.Prelude.Double.{Double, le, max}
use technical_doc_parser.Document.Text.{BBox}
use technical_doc_parser.ReadingOrder.Columns.{
  PageElement, Column, merge_column_pair, matched_columns, nearest_column, last_of, epsilon,
  horizontal_overlap, bbox_width, center_x, locate_columns,
}
use technical_doc_parser.ReadingOrder.Columns.Infer.{
  limit_columns, narrowest_gap, merge_columns, infer_columns, merge_close, maximum_columns,
}

-- Indices from `low` and below `high`, none below the one before it.
abbrev Ascending : ℕ → ℕ → List ℕ → Type 0
Ascending low high [] = Unit
Ascending low high (index ∷ indices) = (low ≤ index) × (index < high) × Ascending index high indices

weaken :
    (low next high : ℕ) (indices : List ℕ)
    → low ≤ next
    → Ascending next high indices
    → Ascending low high indices
weaken low next high [] below _ = tt
weaken low next high (index ∷ indices) below (a, b, rest) = (omega (arith, below, a), b, rest)

last_of-inside :
    (index high : ℕ) (indices : List ℕ)
    → index < high
    → Ascending index high indices
    → (index ≤ last_of index indices) × (last_of index indices < high)
last_of-inside index high [] inside _ = (omega arith, inside)
last_of-inside index high (next ∷ indices) inside (above, below, rest) =
    let (up, down) = last_of-inside next high indices below rest in (omega (arith, above, up), down)

List-cases {ℓ} :
    {A : Type ℓ} (xs : List A) → (xs ≡ []) ⊎ ((x : A) × (rest : List A) × (xs ≡ x ∷ rest))
List-cases [] = inl refl
List-cases (x ∷ rest) = inr (x, rest, refl)

zero_add : (n : ℕ) → 0 + n ≡ n
zero_add n = omega arith

shift : (a b : ℕ) → suc a + b ≡ a + suc b
shift a b = omega arith

module _ {ℓ} {D : Type ℓ} ⦃d : Double D⦄ where
  narrowest_gap-inside :
      (best : ℕ) (gap : D) (index : ℕ) (columns : List (Column D))
      → best + 1 < index + length columns
      → narrowest_gap best gap index columns + 1 < index + length columns
  unfolding narrowest_gap
  narrowest_gap-inside best gap index [] inside = inside
  narrowest_gap-inside best gap index (c ∷ []) inside = inside
  narrowest_gap-inside best gap index (c ∷ e ∷ columns) inside =
      let closer = d.lt (d.sub e.x0 c.x1) gap in
      let gap' = if closer then d.sub e.x0 c.x1 else gap in
      let best' = if closer then index else best in
      elim (Bool-cases closer) [
        | inl t ↦
            omega (
              arith,
              narrowest_gap-inside best' gap' (suc index) (e ∷ columns) (rw t (omega arith)),
            )
        | inr t ↦ omega (
          arith,
          narrowest_gap-inside best' gap' (suc index) (e ∷ columns) (rw t (omega (arith, inside))),
        )
      ]

  length-merge_column_pair :
      (columns : List (Column D)) (index : ℕ)
      → index + 1 < length columns
      → length (merge_column_pair columns index) + 1 ≡ length columns
  unfolding merge_column_pair
  length-merge_column_pair [] index inside = omega (arith, inside)
  length-merge_column_pair (c ∷ []) index inside = omega (arith, inside)
  length-merge_column_pair (c ∷ e ∷ columns) zero inside = omega arith
  length-merge_column_pair (c ∷ e ∷ columns) (suc index) inside =
      omega (arith, length-merge_column_pair (e ∷ columns) index (omega (arith, inside)))

  limit_columns-bounded :
      (fuel : ℕ) (columns : List (Column D))
      → length columns ≤ fuel
      → length (limit_columns fuel columns) ≤ maximum_columns
  unfolding limit_columns
  limit_columns-bounded zero columns enough = omega (arith, enough)
  limit_columns-bounded (suc fuel) columns enough =
      elim (Bool-cases (ltb maximum_columns (length columns))) [
        | inr t ↦ rw (t, limit_columns) (ground (arith, t))
        | inl t ↦
            let index = narrowest_gap 0 d.largest 0 columns in
            let many = ltb→lt maximum_columns (length columns) t in
            let inside = narrowest_gap-inside 0 d.largest 0 columns (omega (arith, many)) in
            rw (t, limit_columns)
              (limit_columns-bounded fuel (merge_column_pair columns index) (
                omega
                  (arith, enough, length-merge_column_pair columns index (omega (arith, inside)))))
      ]

  merge_columns-bounded :
      (gutter : D) (columns : List (Column D)) → length (merge_columns gutter columns) ≤ 6
  unfolding merge_columns
  merge_columns-bounded gutter [] = omega arith
  merge_columns-bounded gutter (column ∷ columns) =
      let merged = merge_close gutter column columns in
      limit_columns-bounded (length merged) merged (omega arith)

  -- No group of blocks has more than six columns.
  pub infer_columns-bounded :
      (elements : List (PageElement D)) (indices : List ℕ)
      → length (infer_columns elements indices) ≤ 6
  unfolding infer_columns
  infer_columns-bounded elements [] = omega arith
  infer_columns-bounded elements (index ∷ indices) = merge_columns-bounded _ _

  matched_columns-Ascending :
      (b : BBox D) (index : ℕ) (columns : List (Column D))
      → Ascending index (index + length columns) (matched_columns b index columns)
  unfolding matched_columns
  matched_columns-Ascending b index [] = tt
  matched_columns-Ascending b index (column ∷ columns) =
      let rest =
        subst (λ high. Ascending (suc index) high (matched_columns b (suc index) columns))
          (shift index (length columns)) (matched_columns-Ascending b (suc index) columns) in
      let overlap = horizontal_overlap b column in
      let found =
        le (d.lit 10 100) (d.div overlap (max epsilon (bbox_width b)))
        || le (d.lit 20 100) (d.div overlap (max epsilon (d.sub column.x1 column.x0))) in
      elim (Bool-cases found) [
        | inl t ↦ rw t (omega arith, omega arith, weaken _ _ _ _ (omega arith) rest)
        | inr t ↦ rw t (weaken _ _ _ _ (omega arith) rest)
      ]

  nearest_column-inside :
      (b : BBox D) (nearest : ℕ) (distance : D) (index : ℕ) (columns : List (Column D))
      → nearest < index + length columns
      → nearest_column b nearest distance index columns < index + length columns
  unfolding nearest_column
  nearest_column-inside b nearest distance index [] inside = inside
  nearest_column-inside b nearest distance index (column ∷ columns) inside =
      let here = d.abs (d.sub (center_x b) (d.mul (d.add column.x0 column.x1) (d.lit 1 2))) in
      let closer = d.lt here distance in
      let step =
        nearest_column-inside b (if closer then index else nearest)
          (if closer then here else distance) (suc index) columns in
      elim (Bool-cases closer) [
        | inl t ↦ omega (arith, step (rw t (omega arith)))
        | inr t ↦ omega (arith, step (rw t (omega (arith, inside))))
      ]

  -- The columns of a box are among those there are, or the first where there are none, and the last of
  -- them is not in front of the first.
  pub locate_columns-inside :
      (b : BBox D) (columns : List (Column D))
      → let range = locate_columns b columns in
        (range.first ≤ range.last) × ((range.last < length columns) ⊎ (range.last ≡ 0))
  unfolding locate_columns
  locate_columns-inside b columns = elim (Bool-cases (leb (length columns) 1)) [
    | inl t ↦ rw (t, locate_columns) (omega arith, inr refl)
    | inr t ↦ elim (List-cases (matched_columns b 0 columns)) [
      | inl none_of ↦
          rw (t, none_of, locate_columns)
            (
              omega arith,
              inl (
                  omega (arith, nearest_column-inside b 0 d.largest 0 columns (ground (arith, t)))),
            )
      | inr (index, indices, some_of) ↦
          let (_, below, rest) = subst (Ascending 0 (length columns)) some_of (
            subst (λ high. Ascending 0 high (matched_columns b 0 columns))
              (zero_add (length columns)) (matched_columns-Ascending b 0 columns)) in
          let (up, down) = last_of-inside index (length columns) indices below rest in
          rw (t, some_of, locate_columns) (up, inl down)
    ]
  ]
