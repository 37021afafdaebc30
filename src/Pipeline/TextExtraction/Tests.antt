-- ===== src/Pipeline/TextExtraction/Tests.antt =====
-- A scanned page: no native text, and a backend that recognizes one line.
use technical_doc_parser.Prelude.{
  ℕ, ◌+◌, ◌*◌, ◌≤◌, ◌≡◌, refl, Bool, true, false, ◌&&◌, ◌||◌, not, none, some, List, [], ◌∷◌, Text,
  bytes, text_eq, ◌==◌, count, length, nat_beq, if◌then◌else◌,
}
use technical_doc_parser.Prelude.Int.{ℤ, pos, ltb_ℤ, ◌+ℤ◌, ◌-ℤ◌, ◌*ℤ◌}
use technical_doc_parser.Prelude.Double.{Milli, milli_double}
use technical_doc_parser.Prelude.Sort.{stable_sort, sort_onto, insert_sorted}
use technical_doc_parser.Document.Text.{TextSource, TextLine, PageText}
use technical_doc_parser.Image.Cache.{PageArtifact}
use technical_doc_parser.Pipeline.TextQuality.{
  default_config, replacements, count_controls, vertical_coverage, intervals, cover,
}
use technical_doc_parser.Pipeline.TextQuality.Policy.{evaluate, measure, non_whitespace, suspicious}
use technical_doc_parser.Pipeline.TextExtraction.{OcrBackend, native_texts, extract_page, extract}
use technical_doc_parser.Pipeline.TextExtraction.Outcome.{
  is_unusable, is_some, extract_page_status, extract_page_keeps, page_texts, all_succeed,
  extract_lem,
}

abbrev sheet : PageArtifact
sheet = record {
  page_index = pos 0;
  page_number = pos 1;
  width = pos 1000;
  height = pos 1000;
  output_path = bytes "p1.png";
}

-- A line of a height of 20 pixels.
abbrev line : Text → ℕ → TextSource → TextLine Milli
line text top source = record {
  text = text;
  bbox = record {
    x0 = pos 0;
    y0 = pos (top * 1000);
    x1 = pos 50000;
    y1 = pos (top * 1000 + 20000);
  };
  source = source;
  confidence = pos 900;
  spans = [];
}

abbrev text_of : TextSource → List (TextLine Milli) → PageText Milli
text_of source lines = record {
  page_index = pos 0;
  page_number = pos 1;
  has_text = true;
  preferred_source = source;
  lines = lines;
  extraction_signals = record {
    decoded_codepoints = 3;
    invalid_utf16_codepoints = 0;
    replacement_codepoints = 0;
    c0_control_counts = [];
  };
}

abbrev native : PageText Milli
native = text_of TextSource.pdf_text_layer (line (bytes "abc") 100 TextSource.pdf_text_layer ∷ [])

abbrev recognized : PageText Milli
recognized =
    text_of TextSource.ocr
      (line (bytes "head") 10 TextSource.ocr ∷ line (bytes "abc") 100 TextSource.ocr ∷ [])

abbrev backend : OcrBackend Milli
backend = record {
  recognize =
      λ page dpi. some (record { page_text = recognized; clockwise_correction_degrees = pos 0 });
  unavailable_reason = [];
}

abbrev print : ℤ → Text
print n = bytes "1"

abbrev is_abc : TextLine Milli → Bool
is_abc l = l.text == bytes "abc"

extract_page_status_example :
    (extract_page print backend (pos 200) sheet native).status.ok_status ≡ (
      ltb_ℤ (pos 0) (pos 200)
      && (not (is_unusable (evaluate default_config sheet native).action)
          || is_some (backend.recognize sheet (pos 200))))
extract_page_status_example = extract_page_status print backend (pos 200) sheet native

usable : is_unusable (evaluate default_config sheet native).action ≡ false
unfolding evaluate measure non_whitespace suspicious replacements count_controls vertical_coverage
    intervals cover stable_sort sort_onto insert_sorted ◌+ℤ◌ ◌-ℤ◌ ◌*ℤ◌
usable = refl

extract_page_keeps_example :
    count is_abc native.lines
    ≤ count is_abc (extract_page print backend (pos 200) sheet native).value.lines
extract_page_keeps_example = extract_page_keeps print backend (pos 200) is_abc sheet native usable

extract_example :
    let (texts, read) = native_texts print backend (pos 200) none (sheet ∷ []) in
    let result = extract print backend (pos 200) none (sheet ∷ []) in
    (result.status.ok_status ≡ (
      ltb_ℤ (pos 0) (pos 200)
      && read
      && nat_beq (length texts) (length (sheet ∷ []))
      && all_succeed print backend (pos 200) (sheet ∷ []) texts))
    × ((if result.status.ok_status
          then result.value
          else page_texts print backend (pos 200) (sheet ∷ []) texts)
        ≡ page_texts print backend (pos 200) (sheet ∷ []) texts)
extract_example = extract_lem print backend (pos 200) none (sheet ∷ [])
