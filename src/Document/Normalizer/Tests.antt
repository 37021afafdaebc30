-- ===== src/Document/Normalizer/Tests.antt =====
-- A page of two words and a line break.
use technical_doc_parser.Prelude.{◌≡◌, List, [], ◌∷◌, Text, bytes}
use technical_doc_parser.Prelude.Int.{ℤ, pos}
use technical_doc_parser.Prelude.Double.{Milli, milli_double}
use technical_doc_parser.Document.Text.{TextSource}
use technical_doc_parser.Document.Normalizer.{
  TextTokenKind, glyph, line_break, TextToken, normalize,
}
use technical_doc_parser.Document.Normalizer.Ink.{ink, glyphs, ink-normalize}

abbrev token : TextTokenKind → Text → ℤ → TextToken Milli
token kind text left = record {
  kind = kind;
  text = text;
  bbox = record { x0 = left; y0 = pos 0; x1 = pos 9000; y1 = pos 5000 };
  source = TextSource.pdf_text_layer;
  confidence = pos 1000;
}

abbrev tokens : List (TextToken Milli)
tokens =
    token glyph (bytes "a") (pos 0)
    ∷ token glyph (bytes " ") (pos 1000)
    ∷ token glyph (bytes "b") (pos 2000)
    ∷ token line_break [] (pos 0)
    ∷ token glyph (bytes "c") (pos 0)
    ∷ []

ink-normalize_example : ink (normalize (pos 4) tokens).lines ≡ glyphs tokens
ink-normalize_example = ink-normalize (pos 4) tokens
