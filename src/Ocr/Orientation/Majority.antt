-- ===== src/Ocr/Orientation/Majority.antt =====
-- cpp/ocr/orientation_policy.cpp: the votes behind a correction.
use technical_doc_parser.Prelude.{
  ℕ, suc, ◌+◌, ◌≤◌, ◌≡◌, ◌≢◌, inl, inr, refl, Bool, true, false, ◌&&◌, List, [], ◌∷◌, nat_beq,
  length, count, if◌then◌else◌, arith, Bool-cases,
}
use technical_doc_parser.Prelude.Int.{ℤ, int_beq, int_beq_iff}
use technical_doc_parser.Prelude.Double.{Double, le}
use technical_doc_parser.Ocr.Orientation.{
  RecognitionEvidence, is_majority, has_dominant_crop_rotation, score, is_vote, count_votes,
  supports_upside_down, competitors, supported_quarter_turn,
}

count_apart :
    (a b : ℤ) (ds : List ℤ)
    → a ≢ b
    → count (λ d. int_beq d a) ds + count (λ d. int_beq d b) ds ≤ length ds
count_apart a b [] apart = omega arith
count_apart a b (d ∷ ds) apart =
    ground (arith, int_beq_iff d a, int_beq_iff d b, count_apart a b ds apart)

-- Two different rotations never both dominate the crops of a page.
pub has_dominant_crop_rotation_unique :
    (ds : List ℤ) (a b : ℤ)
    → a ≢ b
    → (has_dominant_crop_rotation ds a && has_dominant_crop_rotation ds b) ≡ false
unfolding has_dominant_crop_rotation
has_dominant_crop_rotation_unique ds a b apart = ground (arith, count_apart a b ds apart)

module _ {ℓ} {D : Type ℓ} ⦃d : Double D⦄ where
  open d use {lit, sub}

  -- A line that is recognized well when turned, and clearly better than as it is and than when turned
  -- the other way.
  abbrev pub beats : RecognitionEvidence D → RecognitionEvidence D → RecognitionEvidence D → Bool
  beats source opposite candidate =
      le (lit 85 100) (score candidate)
      && le (lit 15 100) (
          sub (score candidate)
            (if le (score opposite) (score source) then score source else score opposite))

  unfoldable pub count_beats :
      List (RecognitionEvidence D) → List (RecognitionEvidence D) → List (RecognitionEvidence D) → ℕ
  count_beats (s ∷ source) (o ∷ opposite) (c ∷ candidate) =
      let rest = count_beats source opposite candidate in if beats s o c then suc rest else rest
  count_beats _ _ _ = 0

  votes_lem :
      (source opposite candidate : List (RecognitionEvidence D))
      → count_votes (competitors source opposite) candidate ≡ count_beats source opposite candidate
  unfolding count_votes competitors count_beats is_vote
  votes_lem [] opposite candidate = refl
  votes_lem (s ∷ source) [] candidate = refl
  votes_lem (s ∷ source) (o ∷ opposite) [] = refl
  votes_lem (s ∷ source) (o ∷ opposite) (c ∷ candidate) =
      elim (Bool-cases (le (score o) (score s))) [
        | inl t ↦ rw (t, votes_lem source opposite candidate) refl
        | inr t ↦ rw (t, votes_lem source opposite candidate) refl
      ]

  supports_lem :
      (source opposite candidate : List (RecognitionEvidence D))
      → (if supports_upside_down (competitors source opposite) candidate
          then is_majority (count_beats source opposite candidate) (length candidate)
          else true)
        ≡ true
  unfolding supports_upside_down
  supports_lem source opposite candidate = ground (arith, votes_lem source opposite candidate)

  -- The turn that is proposed is 90, 270 or none; a turn has at least two lines, and two thirds of
  -- them, that are recognized well and by a clear margin better than in the source and than in the
  -- opposite turn.
  pub supported_quarter_turn_lem :
      (source clockwise_90 clockwise_270 : List (RecognitionEvidence D))
      → let degrees = supported_quarter_turn source clockwise_90 clockwise_270 in
        (if nat_beq degrees 90
          then is_majority (count_beats source clockwise_270 clockwise_90) (length clockwise_90)
          else if nat_beq degrees 270
          then is_majority (count_beats source clockwise_90 clockwise_270) (length clockwise_270)
          else nat_beq degrees 0)
        ≡ true
  unfolding supported_quarter_turn
  supported_quarter_turn_lem source clockwise_90 clockwise_270 = ground (
    arith,
    supports_lem source clockwise_270 clockwise_90,
    supports_lem source clockwise_90 clockwise_270,
  )
