-- ===== src/Ocr/Orientation.antt =====
-- cpp/ocr/orientation_policy.cpp: whether the evidence of recognized lines supports a turned page. A
-- vector has fewer entries than a third of a std::size_t's range, so that the products of the votes
-- do not wrap around.
pub mod Majority
mod Tests
use technical_doc_parser.Prelude.{
  ℕ, suc, ◌+◌, ◌*◌, Bool, true, false, ◌&&◌, ◌||◌, not, List, [], ◌∷◌, leb, nat_beq, length, count,
  if◌then◌else◌,
}
use technical_doc_parser.Prelude.Int.{ℤ, pos, int_beq}
use technical_doc_parser.Prelude.Double.{Double, nought, of_nat, le, clamp}

pub record RecognitionEvidence {ℓ} (D : Type ℓ) : Type ℓ where
  pub confidence : D
  pub characters : ℕ

-- A majority of at least two votes and two thirds.
abbrev pub is_majority : ℕ → ℕ → Bool
is_majority votes size = leb 2 votes && leb (size * 2) (votes * 3)

unfoldable pub has_dominant_crop_rotation : List ℤ → ℤ → Bool
has_dominant_crop_rotation clockwise_degrees degrees =
    is_majority (count (λ d. int_beq d degrees) clockwise_degrees) (length clockwise_degrees)

module _ {ℓ} {D : Type ℓ} ⦃d : Double D⦄ where
  open d use {lit, add, sub, div, lt, is_finite}

  unfoldable pub score : RecognitionEvidence D → D
  score line =
      if leb 4 line.characters && is_finite line.confidence
      then clamp line.confidence nought (lit 1 1)
      else nought

  -- The loop of `recognitionEvidenceScore`.
  unfoldable pub total_score : D → List (RecognitionEvidence D) → D
  unfolding score
  total_score total [] = total
  total_score total (line ∷ lines) = total_score (add total (score line)) lines

  unfoldable pub recognition_evidence_score : List (RecognitionEvidence D) → D
  unfolding total_score
  recognition_evidence_score [] = nought
  recognition_evidence_score (line ∷ lines) =
      div (total_score nought (line ∷ lines)) (of_nat (length (line ∷ lines)))

  unfoldable pub should_probe_upside_down : List (RecognitionEvidence D) → Bool
  should_probe_upside_down lines =
      leb 2 (length lines) && lt (recognition_evidence_score lines) (lit 80 100)

  -- A line of the turned image that is recognized well, and clearly better than before.
  unfoldable pub is_vote : RecognitionEvidence D → RecognitionEvidence D → Bool
  is_vote original rotated =
      le (lit 85 100) (score rotated) && le (lit 15 100) (sub (score rotated) (score original))

  -- The loop over the indices of two vectors of one size.
  unfoldable pub count_votes : List (RecognitionEvidence D) → List (RecognitionEvidence D) → ℕ
  unfolding is_vote
  count_votes [] rotated = 0
  count_votes (o ∷ original) [] = 0
  count_votes (o ∷ original) (r ∷ rotated) =
      let rest = count_votes original rotated in if is_vote o r then suc rest else rest

  unfoldable pub supports_upside_down :
      List (RecognitionEvidence D) → List (RecognitionEvidence D) → Bool
  unfolding count_votes
  supports_upside_down original rotated =
      if not (nat_beq (length original) (length rotated)) || not (leb 2 (length rotated))
      then false
      else is_majority (count_votes original rotated) (length rotated)
        && le (lit 15 100)
            (sub (recognition_evidence_score rotated) (recognition_evidence_score original))

  -- The better of the source and of the opposite direction, line by line.
  unfoldable pub competitors :
      List (RecognitionEvidence D) → List (RecognitionEvidence D) → List (RecognitionEvidence D)
  competitors [] opposite = []
  competitors (s ∷ source) [] = []
  competitors (s ∷ source) (o ∷ opposite) =
      (if le (score o) (score s) then s else o) ∷ competitors source opposite

  unfoldable pub supported_quarter_turn :
      List (RecognitionEvidence D) → List (RecognitionEvidence D) → List (RecognitionEvidence D) → ℕ
  unfolding competitors supports_upside_down
  supported_quarter_turn source clockwise_90 clockwise_270 =
      if not (nat_beq (length source) (length clockwise_90))
        || not (nat_beq (length source) (length clockwise_270))
      then 0
      else if supports_upside_down (competitors source clockwise_270) clockwise_90
      then 90
      else if supports_upside_down (competitors source clockwise_90) clockwise_270
      then 270
      else 0
