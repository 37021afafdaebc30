-- ===== src/Document/Text.antt =====
-- The text of a page: cpp/document/text_model.h, over an abstract type of doubles.
use technical_doc_parser.Prelude.{ℕ, Bool, List, Text}
use technical_doc_parser.Prelude.Int.{ℤ}

pub record BBox {ℓ} (D : Type ℓ) : Type ℓ where
  pub x0 : D
  pub y0 : D
  pub x1 : D
  pub y1 : D

pub data TextSource : Type 0 where
  unknown pdf_text_layer ocr mixed : TextSource

pub record TextSpan {ℓ} (D : Type ℓ) : Type ℓ where
  pub text : Text
  pub bbox : BBox D
  pub source : TextSource
  pub confidence : D

pub record TextLine {ℓ} (D : Type ℓ) : Type ℓ where
  pub text : Text
  pub bbox : BBox D
  pub source : TextSource
  pub confidence : D
  pub spans : List (TextSpan D)

-- `c0_control_counts` has 32 entries.
pub record NativeTextExtractionSignals : Type 0 where
  pub decoded_codepoints : ℕ
  pub invalid_utf16_codepoints : ℕ
  pub replacement_codepoints : ℕ
  pub c0_control_counts : List ℕ

pub record PageText {ℓ} (D : Type ℓ) : Type ℓ where
  pub page_index : ℤ
  pub page_number : ℤ
  pub has_text : Bool
  pub preferred_source : TextSource
  pub lines : List (TextLine D)
  pub extraction_signals : NativeTextExtractionSignals
