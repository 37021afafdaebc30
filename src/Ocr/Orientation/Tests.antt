-- ===== src/Ocr/Orientation/Tests.antt =====
-- Three crops of which two are turned, and two lines that read well at 90 degrees.
use technical_doc_parser.Prelude.{
  ℕ, ◌≡◌, ◌≢◌, true, false, ◌&&◌, List, [], ◌∷◌, nat_beq, length, if◌then◌else◌, arith,
}
use technical_doc_parser.Prelude.Int.{ℤ, pos, int_beq_iff}
use technical_doc_parser.Prelude.Double.{Milli, milli_double}
use technical_doc_parser.Ocr.Orientation.{
  RecognitionEvidence, is_majority, has_dominant_crop_rotation, supported_quarter_turn,
}
use technical_doc_parser.Ocr.Orientation.Majority.{
  count_beats, has_dominant_crop_rotation_unique, supported_quarter_turn_lem,
}

abbrev line : ℕ → RecognitionEvidence Milli
line confidence = record { confidence = pos confidence; characters = 9 }

abbrev crops : List ℤ
crops = pos 90 ∷ pos 90 ∷ pos 270 ∷ []

ninety_apart : pos 90 ≢ pos 270
ninety_apart h = ground (arith, int_beq_iff (pos 90) (pos 270), h)

has_dominant_crop_rotation_test :
    (has_dominant_crop_rotation crops (pos 90) && has_dominant_crop_rotation crops (pos 270))
    ≡ false
has_dominant_crop_rotation_test =
    has_dominant_crop_rotation_unique crops (pos 90) (pos 270) ninety_apart

abbrev poor : List (RecognitionEvidence Milli)
poor = line 300 ∷ line 400 ∷ []

abbrev good : List (RecognitionEvidence Milli)
good = line 900 ∷ line 950 ∷ []

supported_quarter_turn_example :
    let degrees = supported_quarter_turn poor good poor in
    (if nat_beq degrees 90
      then is_majority (count_beats poor poor good) (length good)
      else if nat_beq degrees 270
      then is_majority (count_beats poor good poor) (length poor)
      else nat_beq degrees 0)
    ≡ true
supported_quarter_turn_example = supported_quarter_turn_lem poor good poor
