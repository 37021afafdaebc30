-- ===== src/Table/Assignment/Filling.antt =====
-- `fillCell` and `assignTableText` of cpp/table/table_text_assignment.cpp: the tokens of a cell in
-- reading order, and its text. Each group of tokens takes at least one, so that the number of tokens is
-- fuel enough for the loop over the groups.
use technical_doc_parser.Prelude.{
  ℕ, zero, suc, ◌+◌, ◌≤◌, ◌≡◌, refl, ap, ◌∙◌, Bool, true, List, [], ◌∷◌, ◌++◌, Text, arith, length,
  count, replicate, if◌then◌else◌,
}
use technical_doc_parser.Prelude.Double.{Double, nought, of_nat, le, min}
use technical_doc_parser.Prelude.Sort.{stable_sort, count-stable_sort}
use technical_doc_parser.Document.Text.{BBox}
use technical_doc_parser.Table.Assignment.{
  TableTextToken, TableCell, TableTextAssignmentStats, is_empty, center_y, assign_tokens,
}

module _ {ℓ} {D : Type ℓ} ⦃d : Double D⦄ where
  open d use {lit, add, sub, div, lt}

  -- The tokens on the baseline of the first one, and those behind them.
  unfoldable pub split_group :
      TableTextToken D → List (TableTextToken D) → List (TableTextToken D) × List (TableTextToken D)
  split_group first [] = ([], [])
  split_group first (token ∷ tokens) =
      let (group, others) = split_group first tokens in
      if le (sub (center_y token.bbox) (center_y first.bbox)) (lit 3 1)
      then (token ∷ group, others)
      else ([], token ∷ tokens)

  unfoldable pub sort_groups : ℕ → List (TableTextToken D) → List (TableTextToken D)
  unfolding split_group
  sort_groups zero tokens = []
  sort_groups (suc fuel) [] = []
  sort_groups (suc fuel) (first ∷ tokens) =
      let (group, others) = split_group first tokens in
      stable_sort (λ a b. lt a.bbox.x0 b.bbox.x0) (first ∷ group) ++ sort_groups fuel others

  unfoldable pub order_matches : List (TableTextToken D) → List (TableTextToken D)
  unfolding sort_groups
  order_matches matches =
      sort_groups (length matches)
        (stable_sort (λ a b. lt (center_y a.bbox) (center_y b.bbox)) matches)

  -- The loop that appends the texts and adds the confidences.
  unfoldable pub append_tokens : Text → D → List (TableTextToken D) → Text × D
  append_tokens text confidence [] = (text, confidence)
  append_tokens text confidence (token ∷ tokens) =
      append_tokens ((if is_empty text then [] else text ++ (32 ∷ [])) ++ token.text)
        (add confidence token.confidence) tokens

  unfoldable pub fill_cell : TableCell D → List (TableTextToken D) → TableCell D
  unfolding order_matches append_tokens
  fill_cell cell matches =
      let (text, confidence) = append_tokens [] nought (order_matches matches) in
      record cell {
        text = text;
        confidence =
            if is_empty matches
            then cell.confidence
            else min cell.confidence (div confidence (of_nat (length matches)));
      }

  unfoldable pub fill_cells :
      List (TableCell D) → List (List (TableTextToken D)) → List (TableCell D)
  unfolding fill_cell
  fill_cells [] matches = []
  fill_cells (cell ∷ cells) [] = cell ∷ cells
  fill_cells (cell ∷ cells) (tokens ∷ matches) = fill_cell cell tokens ∷ fill_cells cells matches

  -- `assignTableText`, for a table by its box and its cells.
  unfoldable pub assign_table_text :
      BBox D
      → List (TableCell D)
      → List (TableTextToken D)
      → List (TableCell D) × TableTextAssignmentStats
  unfolding fill_cells
  assign_table_text box cells tokens =
      let (matches, stats) =
        assign_tokens box cells tokens (replicate (length cells) [])
          (record { assigned_tokens = 0; ambiguous_tokens = 0; unassigned_tokens = 0 }) in
      (fill_cells cells matches, stats)

  split_group_lem :
      (p : TableTextToken D → Bool) (first : TableTextToken D) (tokens : List (TableTextToken D))
      → let (group, others) = split_group first tokens in
        (count p group + count p others ≡ count p tokens) × (length others ≤ length tokens)
  unfolding split_group
  split_group_lem p first [] = (omega arith, omega arith)
  split_group_lem p first (token ∷ tokens) = ground (arith, split_group_lem p first tokens)

  count-append :
      (p : TableTextToken D → Bool) (xs ys : List (TableTextToken D))
      → count p (xs ++ ys) ≡ count p xs + count p ys
  count-append p [] ys = omega arith
  count-append p (x ∷ xs) ys = ground (arith, count-append p xs ys)

  sort_groups_lem :
      (p : TableTextToken D → Bool) (fuel : ℕ) (tokens : List (TableTextToken D))
      → length tokens ≤ fuel
      → count p (sort_groups fuel tokens) ≡ count p tokens
  unfolding sort_groups
  sort_groups_lem p zero [] h = refl
  sort_groups_lem p zero (t ∷ tokens) h = absurd (omega (arith, h))
  sort_groups_lem p (suc fuel) [] h = refl
  sort_groups_lem p (suc fuel) (first ∷ tokens) h =
      let (group, others) = split_group first tokens in
      let left = λ (a b : TableTextToken D). lt a.bbox.x0 b.bbox.x0 in
      let (parts, fewer) = split_group_lem p first tokens in
      ground (
        arith,
        parts,
        sort_groups_lem p fuel others (ground (arith, fewer, h)),
        count-append p (stable_sort left (first ∷ group)) (sort_groups fuel others),
        count-stable_sort left p (first ∷ group),
      )

  length-count : (tokens : List (TableTextToken D)) → count (λ _. true) tokens ≡ length tokens
  length-count [] = refl
  length-count (t ∷ tokens) = ap suc (length-count tokens)

  -- Of the tokens of any kind, the reading order of a cell has as many as the cell received: none is
  -- lost or doubled between the groups, and the loop over the groups ends.
  pub order_matches_lem :
      (p : TableTextToken D → Bool) (matches : List (TableTextToken D))
      → count p (order_matches matches) ≡ count p matches
  unfolding order_matches
  order_matches_lem p matches =
      let above = λ (a b : TableTextToken D). lt (center_y a.bbox) (center_y b.bbox) in
      let sorted = stable_sort above matches in
      let enough : length sorted ≤ length matches = omega (
        arith,
        length-count sorted,
        length-count matches,
        count-stable_sort above (λ _. true) matches,
      ) in
      sort_groups_lem p (length matches) sorted enough ∙ count-stable_sort above p matches
