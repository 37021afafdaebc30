-- ===== src/Document/Normalizer.antt =====
-- cpp/document/text_normalizer.cpp: the tokens of a page as lines of spans.
pub mod Ink
mod Tests
use technical_doc_parser.Prelude.{
  ℕ, Bool, true, false, ◌&&◌, ◌||◌, not, Option, none, some, List, [], ◌∷◌, ◌++◌, Text, nat_beq,
  all, replicate, if◌then◌else◌,
}
use technical_doc_parser.Prelude.Int.{ℤ, pos, ◌+ℤ◌}
use technical_doc_parser.Prelude.Double.{Double, nought, le, min, max}
use technical_doc_parser.Document.Text.{
  BBox, TextSpan, TextLine, TextSource, PageText, NativeTextExtractionSignals,
}

pub data TextTokenKind : Type 0 where
  glyph line_break : TextTokenKind

pub record TextToken {ℓ} (D : Type ℓ) : Type ℓ where
  pub kind : TextTokenKind
  pub text : Text
  pub bbox : BBox D
  pub source : TextSource
  pub confidence : D

abbrev pub is_empty {ℓ} : {A : Type ℓ} → List A → Bool
is_empty [] = true
is_empty (x ∷ xs) = false

-- A change of `back()`.
unfoldable pub update_last {ℓ} : {A : Type ℓ} → (A → A) → List A → List A
update_last f [] = []
update_last f (x ∷ []) = f x ∷ []
update_last f (x ∷ y ∷ ys) = x ∷ update_last f (y ∷ ys)

-- The local variables of `normalize`: the `SpanAccumulator` is `none` where `has_span_` is false,
-- and the box of the previous glyph is `none` where `has_previous_glyph` is.
pub record Progress {ℓ} (D : Type ℓ) : Type ℓ where
  pub lines : List (TextLine D)
  pub current : Option (TextSpan D)
  pub previous : Option (BBox D)
  pub pending_new_line : Bool

module _ {ℓ} {D : Type ℓ} ⦃d : Double D⦄ where
  open d use {lit, add, sub, mul, div, abs, lt}

  unfoldable pub is_inline_whitespace : TextToken D → Bool
  is_inline_whitespace token =
      not (is_empty token.text) && all (λ value. nat_beq value 32 || nat_beq value 9) token.text

  unfoldable pub to_span : TextToken D → TextSpan D
  to_span token = record {
    text = token.text;
    bbox = token.bbox;
    source = token.source;
    confidence = token.confidence;
  }

  unfoldable pub expand_bbox : BBox D → BBox D → BBox D
  expand_bbox target value = record {
    x0 = min target.x0 value.x0;
    y0 = min target.y0 value.y0;
    x1 = max target.x1 value.x1;
    y1 = max target.y1 value.y1;
  }

  unfoldable pub new_line : TextSpan D → TextLine D
  new_line span = record {
    text = span.text;
    bbox = span.bbox;
    source = span.source;
    confidence = span.confidence;
    spans = span ∷ [];
  }

  -- The functions below that change a page change its lines alone.
  unfoldable pub start_line : TextSpan D → List (TextLine D) → List (TextLine D)
  unfolding new_line
  start_line span lines = lines ++ (new_line span ∷ [])

  unfoldable pub append_text_to_line : Text → BBox D → List (TextLine D) → List (TextLine D)
  append_text_to_line text bbox lines =
      update_last
        (λ line. record line { text = line.text ++ text; bbox = expand_bbox line.bbox bbox }) lines

  unfoldable pub append_whitespace_to_line : Text → List (TextLine D) → List (TextLine D)
  append_whitespace_to_line text lines =
      update_last (λ line. record line { text = line.text ++ text }) lines

  unfoldable pub bbox_height : BBox D → D
  bbox_height b = max nought (sub b.y1 b.y0)

  unfoldable pub vertical_overlap : BBox D → BBox D → D
  vertical_overlap a b = max nought (sub (min a.y1 b.y1) (max a.y0 b.y0))

  unfoldable pub starts_new_geometric_line : BBox D → BBox D → Bool
  unfolding bbox_height vertical_overlap
  starts_new_geometric_line previous current =
      let previous_height = bbox_height previous in
      let current_height = bbox_height current in
      let reference_height = max previous_height current_height in
      let shorter_height = min previous_height current_height in
      let overlap_ratio = div (vertical_overlap previous current) shorter_height in
      let half = lit 1 2 in
      let center_delta =
        abs (sub (mul (add previous.y0 previous.y1) half) (mul (add current.y0 current.y1) half)) in
      let forward_gap = sub current.x0 previous.x1 in
      let backward_gap = sub previous.x0 current.x1 in
      if le reference_height nought || le shorter_height nought
      then false
      else if lt overlap_ratio (lit 20 100) && lt (mul reference_height (lit 80 100)) center_delta
      then true
      else le (lit 50 100) overlap_ratio
        && (lt (mul reference_height (lit 6 1)) forward_gap
            || lt (mul reference_height (lit 2 1)) backward_gap)

  unfoldable pub find_first_text_line : List (TextLine D) → Option (TextLine D)
  find_first_text_line [] = none
  find_first_text_line (line ∷ lines) =
      if not (is_empty line.spans) then some line else find_first_text_line lines

  unfoldable pub append_span : TextSpan D → List (TextLine D) → List (TextLine D)
  append_span span [] = start_line span []
  append_span span (line ∷ lines) =
      update_last
        (λ last. record last {
          bbox = expand_bbox last.bbox span.bbox;
          spans = last.spans ++ (span ∷ []);
        })
        (line ∷ lines)

  -- `SpanAccumulator::add`
  unfoldable pub add_span : TextSpan D → Progress D → Progress D
  add_span span p = record p {
    lines = append_text_to_line span.text span.bbox p.lines;
    current = elim p.current [
      | none ↦ some span
      | some c ↦ some (record c { text = c.text ++ span.text; bbox = expand_bbox c.bbox span.bbox })
    ];
  }

  -- `SpanAccumulator::flush`
  unfoldable pub flush : Progress D → Progress D
  flush p = elim p.current [
    | none ↦ p
    | some span ↦ record p { lines = append_span span p.lines; current = none }
  ]

  -- A line that holds neither text nor spans yet.
  abbrev pub open_line : TextSpan D → List (TextLine D) → List (TextLine D)
  open_line span lines =
      update_last (λ line. record line { text = []; spans = [] }) (start_line span lines)

  -- The branch of the loop for a glyph that is not skipped, behind the geometric test.
  unfoldable pub place_glyph : TextSpan D → Bool → Progress D → Progress D
  place_glyph span whitespace p =
      let flushed = flush p in
      let q =
        if p.pending_new_line || is_empty p.lines
        then record flushed { lines = open_line span flushed.lines; pending_new_line = false }
        else p in
      let q' = flush q in
      if whitespace
      then record q' { lines = append_whitespace_to_line span.text q'.lines }
      else record (add_span span q) { previous = some span.bbox }

  -- The test for a new line by the boxes of two glyphs.
  unfoldable pub break_geometric : TextSpan D → Bool → Progress D → Progress D
  break_geometric span whitespace p =
      let broken = record (flush p) { pending_new_line = true } in
      elim p.previous [
        | none ↦ p
        | some previous ↦
            if not whitespace && starts_new_geometric_line previous span.bbox then broken else p
      ]

  -- The loop's body for a token that is not a line break.
  unfoldable pub glyph_step : TextToken D → Progress D → Progress D
  glyph_step token p =
      let whitespace = is_inline_whitespace token in
      let span = to_span token in
      if is_empty token.text
      then p
      else if whitespace && (is_empty p.lines || p.pending_new_line)
      then p
      else place_glyph span whitespace (break_geometric span whitespace p)

  unfoldable pub normalize_step : TextToken D → Progress D → Progress D
  unfolding glyph_step
  normalize_step token p = elim token.kind [
    | line_break ↦ record (flush p) { pending_new_line = true; previous = none }
    | glyph ↦ glyph_step token p
  ]

  unfoldable pub normalize_loop : List (TextToken D) → Progress D → Progress D
  normalize_loop [] p = p
  normalize_loop (token ∷ tokens) p = normalize_loop tokens (normalize_step token p)

  abbrev pub start : Progress D
  start = record { lines = []; current = none; previous = none; pending_new_line = false }

  -- `TextNormalizer::normalize`. The signals of the extraction keep their initial values.
  unfoldable pub normalize : ℤ → List (TextToken D) → PageText D
  normalize page_index tokens =
      let lines = (flush (normalize_loop tokens start)).lines in
      let first = find_first_text_line lines in
      record {
        page_index = page_index;
        page_number = page_index +ℤ pos 1;
        has_text = elim first [ none ↦ false | some line ↦ true ];
        preferred_source = elim first [ none ↦ TextSource.unknown | some line ↦ line.source ];
        lines = lines;
        extraction_signals = record {
          decoded_codepoints = 0;
          invalid_utf16_codepoints = 0;
          replacement_codepoints = 0;
          c0_control_counts = replicate 32 0;
        };
      }
