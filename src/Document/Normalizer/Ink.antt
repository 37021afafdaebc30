-- ===== src/Document/Normalizer/Ink.antt =====
-- cpp/document/text_normalizer.cpp: the text of the tokens and that of the spans.
use technical_doc_parser.Prelude.{
  ◌≡◌, refl, sym, ap, ◌∙◌, ◌⊎◌, inl, inr, Bool, true, false, ◌&&◌, ◌||◌, not, Option, none, some,
  List, [], ◌∷◌, ◌++◌, Text, arith, if◌then◌else◌, Bool-cases, Option-cases,
}
use technical_doc_parser.Prelude.Int.{ℤ}
use technical_doc_parser.Prelude.Double.{Double}
use technical_doc_parser.Document.Text.{BBox, TextSpan, TextLine}
use technical_doc_parser.Document.Normalizer.{
  TextTokenKind, glyph, line_break, TextToken, is_empty, update_last, is_inline_whitespace, to_span,
  new_line, start_line, append_text_to_line, append_whitespace_to_line, append_span, Progress,
  add_span, flush, open_line, place_glyph, break_geometric, starts_new_geometric_line, glyph_step,
  normalize_step, normalize_loop, start, normalize,
}
use mathlib.Core.List.{append_assoc, append-nil}

kind_cases : (k : TextTokenKind) → (k ≡ line_break) ⊎ (k ≡ glyph)
kind_cases line_break = inl refl
kind_cases glyph = inr refl

module _ {ℓ} {D : Type ℓ} ⦃d : Double D⦄ where
  -- The text of the spans of a page, in order.
  abbrev pub span_text : List (TextSpan D) → Text
  span_text [] = []
  span_text (s ∷ ss) = s.text ++ span_text ss

  abbrev pub ink : List (TextLine D) → Text
  ink [] = []
  ink (l ∷ ls) = span_text l.spans ++ ink ls

  abbrev pub mark : TextToken D → Text
  mark t = elim t.kind [ line_break ↦ [] | glyph ↦ if is_inline_whitespace t then [] else t.text ]

  -- The text of the tokens that are neither line breaks nor white space, in order.
  abbrev pub glyphs : List (TextToken D) → Text
  glyphs [] = []
  glyphs (t ∷ ts) = mark t ++ glyphs ts

  -- What the accumulator holds.
  abbrev held : Option (TextSpan D) → Text
  held none = []
  held (some s) = s.text

  span_text-append :
      (xs ys : List (TextSpan D)) → span_text (xs ++ ys) ≡ span_text xs ++ span_text ys
  span_text-append [] ys = refl
  span_text-append (x ∷ xs) ys =
      ap (λ r. x.text ++ r) (span_text-append xs ys)
      ∙ sym (append_assoc x.text (span_text xs) (span_text ys))

  -- A change of the last line that keeps its spans.
  ink-keep :
      (f : TextLine D → TextLine D)
      → ((l : TextLine D) → (f l).spans ≡ l.spans)
      → (lines : List (TextLine D)) → ink (update_last f lines) ≡ ink lines
  unfolding update_last
  ink-keep f same [] = refl
  ink-keep f same (x ∷ []) = ap (λ s. span_text s ++ []) (same x)
  ink-keep f same (x ∷ y ∷ ys) = ap (λ r. span_text x.spans ++ r) (ink-keep f same (y ∷ ys))

  ink-append_span :
      (span : TextSpan D) (lines : List (TextLine D))
      → ink (append_span span lines) ≡ ink lines ++ span.text
  unfolding append_span start_line new_line update_last
  ink-append_span span [] = append-nil _ ∙ append-nil _
  ink-append_span span (x ∷ []) = simp (append_assoc, append-nil, span_text-append)
  ink-append_span span (x ∷ y ∷ ys) =
      ap (λ r. span_text x.spans ++ r) (ink-append_span span (y ∷ ys))
      ∙ sym (append_assoc (span_text x.spans) (ink (y ∷ ys)) span.text)

  ink-open_line :
      (span : TextSpan D) (lines : List (TextLine D)) → ink (open_line span lines) ≡ ink lines
  unfolding start_line update_last new_line
  ink-open_line span [] = refl
  ink-open_line span (x ∷ []) = refl
  ink-open_line span (x ∷ y ∷ ys) = ap (λ r. span_text x.spans ++ r) (ink-open_line span (y ∷ ys))

  -- The ink of the lines, and of the accumulator behind them.
  abbrev written : Progress D → Text
  written p = ink p.lines ++ held p.current

  flush_lem : (p : Progress D) → ((flush p).current ≡ none) × (ink (flush p).lines ≡ written p)
  unfolding flush
  flush_lem p = elim (Option-cases p.current) [
    | inl h ↦ rw (h, flush) (h, sym (append-nil _))
    | inr (span, h) ↦ rw (h, flush) (refl, ink-append_span span p.lines)
  ]

  text_lem :
      (text : Text) (b : BBox D) (lines : List (TextLine D))
      → ink (append_text_to_line text b lines) ≡ ink lines
  unfolding append_text_to_line
  text_lem text b lines = ink-keep _ (λ l. refl) lines

  whitespace_lem :
      (text : Text) (lines : List (TextLine D))
      → ink (append_whitespace_to_line text lines) ≡ ink lines
  unfolding append_whitespace_to_line
  whitespace_lem text lines = ink-keep _ (λ l. refl) lines

  add_span_lem :
      (span : TextSpan D) (p : Progress D) → written (add_span span p) ≡ written p ++ span.text
  unfolding add_span
  add_span_lem span p = elim (Option-cases p.current) [
    | inl h ↦ rw (h, add_span) (simp (text_lem, append-nil))
    | inr (c, h) ↦ rw (h, add_span) (simp (text_lem, append_assoc))
  ]

  written-flush : (p : Progress D) → written (flush p) ≡ written p
  written-flush p =
      let (gone, kept) = flush_lem p in
      ap (λ c. ink (flush p).lines ++ held c) gone ∙ append-nil _ ∙ kept

  break_lem :
      (span : TextSpan D) (whitespace : Bool) (p : Progress D)
      → written (break_geometric span whitespace p) ≡ written p
  unfolding break_geometric
  break_lem span whitespace p = elim (Option-cases p.previous) [
    | inl h ↦ rw (h, break_geometric) refl
    | inr (b, h) ↦
        rw (h, break_geometric)
          (elim (Bool-cases (not whitespace && starts_new_geometric_line b span.bbox)) [
            | inl t ↦ rw t (written-flush p)
            | inr t ↦ rw t refl
          ])
  ]

  -- The branch that opens a line.
  opened_lem :
      (span : TextSpan D) (p : Progress D)
      → written
          (record (flush p) { lines = open_line span (flush p).lines; pending_new_line = false })
        ≡ written p
  opened_lem span p =
      ap (λ r. r ++ held (flush p).current) (ink-open_line span (flush p).lines) ∙ written-flush p

  blank_lem :
      (span : TextSpan D) (p : Progress D)
      → ink (append_whitespace_to_line span.text (flush p).lines) ++ held (flush p).current
        ≡ written p
  blank_lem span p =
      ap (λ r. r ++ held (flush p).current) (whitespace_lem span.text (flush p).lines)
      ∙ written-flush p

  place_lem :
      (span : TextSpan D) (whitespace : Bool) (p : Progress D)
      → written (place_glyph span whitespace p)
        ≡ (if whitespace then written p else written p ++ span.text)
  unfolding place_glyph
  place_lem span true p = elim (Bool-cases (p.pending_new_line || is_empty p.lines)) [
    | inl t ↦ rw (t, place_glyph) (blank_lem span _ ∙ opened_lem span p)
    | inr t ↦ rw (t, place_glyph) (blank_lem span p)
  ]
  place_lem span false p = elim (Bool-cases (p.pending_new_line || is_empty p.lines)) [
    | inl t ↦
        rw (t, place_glyph) (add_span_lem span _ ∙ ap (λ r. r ++ span.text) (opened_lem span p))
    | inr t ↦ rw (t, place_glyph) (add_span_lem span p)
  ]

  abbrev inked : TextToken D → Text
  inked t = if is_inline_whitespace t then [] else t.text

  empty_lem : (t : TextToken D) → is_empty t.text ≡ true → t.text ≡ []
  empty_lem t h = ground arith

  nothing : (t : TextToken D) → is_empty t.text ≡ true → inked t ≡ []
  nothing t e = elim (Bool-cases (is_inline_whitespace t)) [
    | inl w ↦ rw w refl
    | inr w ↦ rw w (empty_lem t e)
  ]

  glyph_lem : (t : TextToken D) (p : Progress D) → written (glyph_step t p) ≡ written p ++ inked t
  unfolding glyph_step to_span
  glyph_lem t p = elim (Bool-cases (is_empty t.text)) [
    | inl e ↦ rw (e, glyph_step) (sym (ap (λ r. written p ++ r) (nothing t e) ∙ append-nil _))
    | inr e ↦ elim (Bool-cases (is_inline_whitespace t)) [
      | inl w ↦ elim (Bool-cases (is_empty p.lines || p.pending_new_line)) [
        | inl o ↦ rw (e, w, o, glyph_step) (sym (append-nil _))
        | inr o ↦
            rw (e, w, o, glyph_step)
              (place_lem (to_span t) true _ ∙ break_lem (to_span t) true p ∙ sym (append-nil _))
      ]
      | inr w ↦
          rw (e, w, glyph_step)
            (place_lem (to_span t) false _ ∙ ap (λ r. r ++ t.text) (break_lem (to_span t) false p))
    ]
  ]

  step_lem : (t : TextToken D) (p : Progress D) → written (normalize_step t p) ≡ written p ++ mark t
  unfolding normalize_step is_inline_whitespace
  step_lem t p = elim (kind_cases t.kind) [
    | inl h ↦ rw (h, normalize_step) (written-flush p ∙ sym (append-nil _))
    | inr h ↦ rw (h, normalize_step) (glyph_lem t p)
  ]

  loop_lem :
      (ts : List (TextToken D)) (p : Progress D)
      → written (normalize_loop ts p) ≡ written p ++ glyphs ts
  unfolding normalize_loop
  loop_lem [] p = sym (append-nil _)
  loop_lem (t ∷ ts) p =
      loop_lem ts (normalize_step t p)
      ∙ ap (λ r. r ++ glyphs ts) (step_lem t p)
      ∙ append_assoc (written p) (mark t) (glyphs ts)

  -- The spans of the lines hold the text of the tokens that are neither line breaks nor white space:
  -- no byte is lost, doubled or moved, whatever lines and spans the boxes and the breaks lead to.
  pub ink-normalize :
      (page_index : ℤ) (tokens : List (TextToken D))
      → ink (normalize page_index tokens).lines ≡ glyphs tokens
  unfolding normalize
  ink-normalize page_index tokens =
      (flush_lem (normalize_loop tokens start)).1 ∙ loop_lem tokens start
