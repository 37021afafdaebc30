-- ===== src/Pipeline/TextExtraction.antt =====
-- cpp/pipeline/text_extraction_stage.cpp: the text of each page, from the document or recognized. The
-- OCR backend, the native text of the document and std::to_string are parameters.
pub mod Outcome
mod Tests
use technical_doc_parser.Prelude.{
  ℕ, Bool, true, false, ◌&&◌, not, Option, none, some, List, [], ◌∷◌, ◌++◌, Text, bytes, nat_beq,
  length, map, replicate, if◌then◌else◌,
}
use technical_doc_parser.Prelude.Int.{ℤ, pos, ltb_ℤ}
use technical_doc_parser.Prelude.Double.{Double}
use technical_doc_parser.Common.Status.{Status, ok, error, Diagnostic}
use technical_doc_parser.Document.Text.{TextSource, PageText, NativeTextExtractionSignals}
use technical_doc_parser.Image.Cache.{PageArtifact}
use technical_doc_parser.Pipeline.TextQuality.{
  NativeTextAction, use_native, use_ocr, merge_ocr, default_config,
}
use technical_doc_parser.Pipeline.TextQuality.Policy.{evaluate, merge, is_empty}

-- `OcrResult`, without the regions, which the stage does not read.
pub record OcrResult {ℓ} (D : Type ℓ) : Type ℓ where
  pub page_text : PageText D
  pub clockwise_correction_degrees : ℤ

pub record OcrBackend {ℓ} (D : Type ℓ) : Type ℓ where
  pub recognize : PageArtifact → ℤ → Option (OcrResult D)
  pub unavailable_reason : Text

-- `PageTextExtractionResult`
pub record PageTextExtraction {ℓ} (D : Type ℓ) : Type ℓ where
  pub status : Status
  pub value : PageText D
  pub diagnostics : List Diagnostic
  pub clockwise_correction_degrees : ℤ

pub record Extraction {ℓ} (D : Type ℓ) : Type ℓ where
  pub status : Status
  pub value : List (PageText D)
  pub diagnostics : List Diagnostic

abbrev pub invalid_dpi : Status
invalid_dpi = error (bytes "text.invalid_dpi") (bytes "render DPI must be positive") [] false

-- The diagnostic of a page whose enhancement failed.
abbrev pub enhancement_failed : ℤ → Text → Diagnostic
enhancement_failed page_number reason = record {
  code = bytes "OCR_ENHANCEMENT_FAILED";
  message = bytes "OCR enhancement failed; retained usable native text";
  stage = bytes "text";
  page_number = page_number;
  details = (bytes "fallback", bytes "native_text") ∷ (bytes "reason", reason) ∷ [];
}

abbrev pub ocr_failed : (ℤ → Text) → ℤ → Text → Status
ocr_failed print page_number reason =
    error (bytes "text.ocr_failed")
      (if is_empty reason
        then bytes "OCR failed for page " ++ print page_number
        else bytes "OCR is required for page " ++ print page_number ++ bytes ": " ++ reason)
      [] false

module _ {ℓ} {D : Type ℓ} ⦃d : Double D⦄ (print : ℤ → Text) (backend : OcrBackend D) (dpi : ℤ) where
  unfoldable pub extract_page : PageArtifact → PageText D → PageTextExtraction D
  extract_page page native_text =
      let quality = evaluate default_config page native_text in
      let result : PageTextExtraction D = record {
        status = ok;
        value = native_text;
        diagnostics = [];
        clockwise_correction_degrees = pos 0;
      } in
      if not (ltb_ℤ (pos 0) dpi)
      then record result { status = invalid_dpi }
      else elim quality.action [
        | use_native ↦ result
        | merge_ocr ↦ elim (backend.recognize page dpi) [
          | none ↦ record result {
            diagnostics = enhancement_failed page.page_number quality.reason ∷ [];
          }
          | some ocr ↦ record result {
            value = (merge default_config native_text ocr.page_text).text;
            clockwise_correction_degrees = ocr.clockwise_correction_degrees;
          }
        ]
        | use_ocr ↦ elim (backend.recognize page dpi) [
          | none ↦ record result {
            status = ocr_failed print page.page_number backend.unavailable_reason;
          }
          | some ocr ↦ record result {
            value = ocr.page_text;
            clockwise_correction_degrees = ocr.clockwise_correction_degrees;
          }
        ]
      ]

  -- The loop of `extract`: `done` holds the texts and diagnostics of the pages before, `texts` those
  -- that are still native.
  unfoldable pub extract_loop :
      List (PageText D) → List Diagnostic → List PageArtifact → List (PageText D) → Extraction D
  unfolding extract_page
  extract_loop before diagnostics [] texts = record {
    status = ok;
    value = before ++ texts;
    diagnostics = diagnostics;
  }
  extract_loop before diagnostics (page ∷ pages) [] = record {
    status = ok;
    value = before;
    diagnostics = diagnostics;
  }
  extract_loop before diagnostics (page ∷ pages) (text ∷ texts) =
      let result = extract_page page text in
      let rest =
        extract_loop (before ++ (result.value ∷ [])) (diagnostics ++ result.diagnostics) pages
          texts in
      if result.status.ok_status then rest else record {
        status = result.status;
        value = before ++ (result.value ∷ texts);
        diagnostics = diagnostics;
      }

  -- A page without native text.
  abbrev pub no_text : PageArtifact → PageText D
  no_text page = record {
    page_index = page.page_index;
    page_number = page.page_number;
    has_text = false;
    preferred_source = TextSource.unknown;
    lines = [];
    extraction_signals = record {
      decoded_codepoints = 0;
      invalid_utf16_codepoints = 0;
      replacement_codepoints = 0;
      c0_control_counts = replicate 32 0;
    };
  }

  -- A return that leaves the pages as they are.
  abbrev pub stopped : Status → List (PageText D) → Extraction D
  stopped status value = record { status = status; value = value; diagnostics = [] }

  -- The texts before the loop, and whether they could be read.
  abbrev pub native_texts :
      Option (ℤ → List (PageText D) × Bool) → List PageArtifact → List (PageText D) × Bool
  native_texts none pages = (map no_text pages, true)
  native_texts (some native) pages = native dpi

  -- `extract`. The extractor is `none` where the document has none; it gives the texts, and whether
  -- it succeeded.
  unfoldable pub extract : Option (ℤ → List (PageText D) × Bool) → List PageArtifact → Extraction D
  unfolding extract_loop
  extract extractor pages =
      let (texts, read) = native_texts extractor pages in
      if not (ltb_ℤ (pos 0) dpi)
      then stopped invalid_dpi []
      else if not read
      then stopped
          (error (bytes "text.native_extraction_failed") (bytes "native text extraction failed") []
            false)
          texts
      else if not (nat_beq (length texts) (length pages))
      then stopped
          (error (bytes "text.page_count_mismatch")
            (bytes "native text page count does not match page artifacts") [] false)
          texts
      else extract_loop [] [] pages texts
