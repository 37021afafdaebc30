-- ===== src/Document/Rotation/Tests.antt =====
-- A page of 200 by 100 pixels, turned by 90 degrees.
use technical_doc_parser.Prelude.{arith, ◌≡◌, refl, true, some, [], ◌∷◌, bytes}
use technical_doc_parser.Prelude.Int.{ℤ, pos, negsuc, ◌-ℤ◌, ◌*ℤ◌}
use technical_doc_parser.Prelude.Double.{Milli, milli_double}
use technical_doc_parser.Document.Text.{BBox, TextSource, PageText}
use technical_doc_parser.Document.Rotation.{
  PageRotation, new_rotation, text_to_working, text_to_source,
}
use technical_doc_parser.Document.Rotation.Roundtrip.{
  IsIeee, IsPixelBox, text_to_source-text_to_working,
}

abbrev box : BBox Milli
box = record { x0 = pos 10000; y0 = pos 20000; x1 = pos 60000; y1 = pos 30000 }

abbrev turn : PageRotation
turn = record { width = pos 200; height = pos 100; degrees = 90 }

abbrev text : PageText Milli
text = record {
  page_index = pos 0;
  page_number = pos 1;
  has_text = true;
  preferred_source = TextSource.ocr;
  lines =
      record {
        text = bytes "a";
        bbox = box;
        source = TextSource.ocr;
        confidence = pos 900;
        spans =
            record { text = bytes "a"; bbox = box; source = TextSource.ocr; confidence = pos 900 }
            ∷ [];
      }
      ∷ [];
  extraction_signals = record {
    decoded_codepoints = 0;
    invalid_utf16_codepoints = 0;
    replacement_codepoints = 0;
    c0_control_counts = [];
  };
}

thousandths : (a b : ℤ) → a *ℤ pos 1000 -ℤ (b *ℤ pos 1000) ≡ (a -ℤ b) *ℤ pos 1000
unfolding ◌-ℤ◌ ◌*ℤ◌
thousandths (pos a) (pos b) = ground arith
thousandths (pos a) (negsuc b) = ground arith
thousandths (negsuc a) (pos b) = ground arith
thousandths (negsuc a) (negsuc b) = ground arith

milli-IsIeee : IsIeee milli_double
milli-IsIeee = record { sub-of_int = λ a b small_a small_b. thousandths a b }

box-IsPixelBox : IsPixelBox box
unfolding ◌*ℤ◌
box-IsPixelBox = (
  (pos 10, (omega arith, omega arith), refl),
  (pos 20, (omega arith, omega arith), refl),
  (pos 60, (omega arith, omega arith), refl),
  (pos 30, (omega arith, omega arith), refl),
)

made : new_rotation (pos 200) (pos 100) (pos 90) ≡ some turn
unfolding new_rotation
made = refl

text_to_source-text_to_working_example : text_to_source turn (text_to_working turn text) ≡ text
text_to_source-text_to_working_example =
    text_to_source-text_to_working milli-IsIeee (pos 200) (pos 100) (pos 90) turn text made
      (omega arith, omega arith) (omega arith, omega arith)
      ((box-IsPixelBox, (box-IsPixelBox, tt)), tt)
