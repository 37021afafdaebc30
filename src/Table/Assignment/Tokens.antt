-- ===== src/Table/Assignment/Tokens.antt =====
-- cpp/table/table_text_assignment.cpp: where the tokens of a page go.
use technical_doc_parser.Prelude.{
  ℕ, zero, suc, ◌+◌, ◌≤◌, ◌<◌, ◌≡◌, refl, ap, ◌∙◌, inl, inr, Bool, true, false, ◌&&◌, ◌||◌, not,
  Option, none, some, List, [], ◌∷◌, ◌++◌, arith, ltb, length, count, replicate, length-replicate,
  if◌then◌else◌, Bool-cases, Option-cases,
}
use technical_doc_parser.Prelude.Int.{ℤ}
use technical_doc_parser.Prelude.Double.{Double}
use technical_doc_parser.Document.Text.{BBox}
use technical_doc_parser.Table.Assignment.{
  TableTextToken, TableCell, TableTextAssignmentStats, is_empty, valid_box, center_inside, rank,
  rank_lt, best_cell, push_at, assign_tokens,
}

-- An index, if there is one, is below a bound.
abbrev under {ℓ} : {A : Type ℓ} → ℕ → Option (ℕ × A) → Bool
under bound none = true
under bound (some (index, _)) = ltb index bound

module _ {ℓ} {D : Type ℓ} ⦃d : Double D⦄ where
  under_more :
      (a b : ℕ) (best : Option (ℕ × (D × D × ℤ × ℤ)))
      → a ≤ b
      → under a best ≡ true
      → under b best ≡ true
  under_more a b none h below = refl
  under_more a b (some (index, _)) h below = ground arith

  chosen :
      (index : ℕ) (best : Option (ℕ × (D × D × ℤ × ℤ))) (here : D × D × ℤ × ℤ)
      → under index best ≡ true
      → (better : Bool) → under (index + 1) (if better then some (index, here) else best) ≡ true
  chosen index best here h true = ground arith
  chosen index best here h false = under_more index (index + 1) best (omega arith) h

  best_cell-under :
      (token : TableTextToken D) (index : ℕ) (cells : List (TableCell D))
      (best : Option (ℕ × (D × D × ℤ × ℤ))) (candidates : ℕ)
      → under index best ≡ true
      → under (index + length cells) (best_cell token index cells best candidates).0 ≡ true
  unfolding best_cell
  best_cell-under token index [] best candidates h =
      under_more index (index + 0) best (omega arith) h
  best_cell-under token index (cell ∷ cells) best candidates h =
      let wider = under_more (index + 1 + length cells) (index + suc (length cells)) in
      elim (Bool-cases (not (valid_box cell.bbox) || not (center_inside cell.bbox token.bbox))) [
        | inl t ↦ rw t (
            wider _ (omega arith) (
              best_cell-under token (index + 1) cells best candidates
                (under_more index (index + 1) best (omega arith) h)))
        | inr t ↦ rw t (
            wider _ (omega arith) (
              best_cell-under token (index + 1) cells _ (candidates + 1) (
                chosen index best (rank cell token) h
                  (elim best [ none ↦ true | some (_, r) ↦ rank_lt (rank cell token) r ]))))
      ]

  -- How many tokens of a kind the cells have together.
  abbrev pub total : (TableTextToken D → Bool) → List (List (TableTextToken D)) → ℕ
  total p [] = 0
  total p (tokens ∷ matches) = count p tokens + total p matches

  count-snoc :
      (p : TableTextToken D → Bool) (tokens : List (TableTextToken D)) (token : TableTextToken D)
      → count p (tokens ++ (token ∷ [])) ≡ count p tokens + count p (token ∷ [])
  count-snoc p [] token = ground arith
  count-snoc p (t ∷ tokens) token = ground (arith, count-snoc p tokens token)

  push_at_lem :
      (p : TableTextToken D → Bool) (index : ℕ) (token : TableTextToken D)
      (matches : List (List (TableTextToken D)))
      → index < length matches
      → (total p (push_at index token matches) ≡ total p matches + count p (token ∷ []))
        × (length (push_at index token matches) ≡ length matches)
  unfolding push_at
  push_at_lem p index token [] h = ground arith
  push_at_lem p zero token (tokens ∷ matches) h = ground (arith, count-snoc p tokens token)
  push_at_lem p (suc index) token (tokens ∷ matches) h =
      ground (arith, push_at_lem p index token matches)

  assign_lem :
      (p : TableTextToken D → Bool) (box : BBox D) (cells : List (TableCell D))
      (tokens : List (TableTextToken D)) (matches : List (List (TableTextToken D)))
      (stats : TableTextAssignmentStats)
      → length matches ≡ length cells
      → let (matches', stats') = assign_tokens box cells tokens matches stats in
        (total p matches' ≤ total p matches + count p tokens)
        × (total (λ _. true) matches' + stats.assigned_tokens
            ≡ total (λ _. true) matches + stats'.assigned_tokens)
        × (stats'.ambiguous_tokens + stats.assigned_tokens
            ≤ stats.ambiguous_tokens + stats'.assigned_tokens)
        × (stats'.assigned_tokens + stats'.unassigned_tokens
            ≤ stats.assigned_tokens + stats.unassigned_tokens + length tokens)
  unfolding assign_tokens
  assign_lem p box cells [] matches stats same =
      (omega arith, omega arith, omega arith, omega arith)
  assign_lem p box cells (token ∷ tokens) matches stats same =
      elim (Bool-cases (is_empty token.text || not (valid_box token.bbox))) [
        | inl t ↦
            let rest = assign_lem p box cells tokens matches stats same in
            rw t (ground (arith, rest))
        | inr t ↦ elim (Option-cases (best_cell token 0 cells none 0).0) [
          | inl b ↦ elim (Bool-cases (valid_box box && center_inside box token.bbox)) [
            | inl m ↦
                let stats' : TableTextAssignmentStats = record stats {
                  unassigned_tokens = stats.unassigned_tokens + 1;
                } in
                let rest = assign_lem p box cells tokens matches stats' same in
                rw (t, b, m) (ground (arith, rest))
            | inr m ↦
                let rest = assign_lem p box cells tokens matches stats same in
                rw (t, b, m) (ground (arith, rest))
          ]
          | inr ((index, r), b) ↦
              let found = best_cell-under token 0 cells none 0 refl in
              let below : index < length matches =
                ground (arith, same, ap (under (length cells)) b, found) in
              let stats' : TableTextAssignmentStats = record stats {
                assigned_tokens = stats.assigned_tokens + 1;
                ambiguous_tokens =
                    stats.ambiguous_tokens
                    + (if ltb 1 (best_cell token 0 cells none 0).1 then 1 else 0);
              } in
              let (held, kept) = push_at_lem p index token matches below in
              let (all_held, _) = push_at_lem (λ _. true) index token matches below in
              let rest =
                assign_lem p box cells tokens (push_at index token matches) stats' (kept ∙ same) in
              rw (t, b) (ground (arith, rest, held, all_held))
        ]
      ]

  total_none : (p : TableTextToken D → Bool) (n : ℕ) → total p (replicate n []) ≡ 0
  total_none p zero = refl
  total_none p (suc n) = omega (arith, total_none p n)

  -- Of the tokens of any kind, the cells of a table receive together at most as many as there are: no
  -- token goes to two cells. The cells hold as many tokens as are counted as assigned, of which the
  -- ambiguous ones are a part, and no token is counted as assigned and as unassigned.
  pub assign_tokens_lem :
      (p : TableTextToken D → Bool) (box : BBox D) (cells : List (TableCell D))
      (tokens : List (TableTextToken D))
      → let (matches, stats) =
          assign_tokens box cells tokens
            (replicate (length cells) [])
            (record { assigned_tokens = 0; ambiguous_tokens = 0; unassigned_tokens = 0 }) in
        (total p matches ≤ count p tokens)
        × (total (λ _. true) matches ≡ stats.assigned_tokens)
        × (stats.ambiguous_tokens ≤ stats.assigned_tokens)
        × (stats.assigned_tokens + stats.unassigned_tokens ≤ length tokens)
  assign_tokens_lem p box cells tokens =
      let stats : TableTextAssignmentStats = record {
        assigned_tokens = 0;
        ambiguous_tokens = 0;
        unassigned_tokens = 0;
      } in
      let start =
        assign_lem p box cells tokens (replicate (length cells) []) stats
          (length-replicate (length cells) []) in
      ground (arith, start, total_none p (length cells), total_none (λ _. true) (length cells))
