-- ===== src/Pipeline/TextQuality/Policy.antt =====
-- `NativeTextQualityPolicy` of cpp/pipeline/text_quality.cpp: the decision about a page's native text,
-- and its merge with recognized text.
use technical_doc_parser.Prelude.{
  ℕ, ◌+◌, ◌*◌, Bool, true, false, ◌&&◌, ◌||◌, not, List, [], ◌∷◌, ◌++◌, bytes, ltb, leb, nat_beq,
  count, if◌then◌else◌,
}
use technical_doc_parser.Prelude.Int.{pos, ltb_ℤ}
use technical_doc_parser.Prelude.Double.{Double, nought, of_nat, le}
use technical_doc_parser.Prelude.Sort.{stable_sort}
use technical_doc_parser.Document.Text.{TextSource, TextLine, PageText}
use technical_doc_parser.Image.Cache.{PageArtifact}
use technical_doc_parser.Pipeline.TextQuality.{
  use_native, use_ocr, merge_ocr, NativeTextQuality, NativeTextQualityConfig, is_space,
  is_suspicious, replacements, count_controls, vertical_coverage, is_duplicate_line,
}

abbrev pub is_empty {ℓ} : {A : Type ℓ} → List A → Bool
is_empty [] = true
is_empty (x ∷ xs) = false

pub record TextMergeResult {ℓ} (D : Type ℓ) : Type ℓ where
  pub text : PageText D
  pub added_ocr_lines : ℕ

module _ {ℓ} {D : Type ℓ} ⦃d : Double D⦄ where
  open d use {div, lt, eq}

  -- The first loop of `evaluate`.
  unfoldable pub non_whitespace : List (TextLine D) → ℕ
  non_whitespace [] = 0
  non_whitespace (line ∷ lines) =
      count (λ value. not (is_space value)) line.text + non_whitespace lines

  unfoldable pub suspicious : List (TextLine D) → ℕ
  unfolding replacements
  suspicious [] = 0
  suspicious (line ∷ lines) =
      count is_suspicious line.text + replacements line.text * 3 + suspicious lines

  -- `evaluate` up to the first return: what is measured.
  unfoldable pub measure : PageArtifact → PageText D → NativeTextQuality D
  unfolding non_whitespace suspicious count_controls vertical_coverage
  measure page text =
      let signals = text.extraction_signals in
      let controls =
        count_controls 0 signals.c0_control_counts
          (record { all = 0; distinct = 0; damaging = 0; distinct_damaging = 0 }) in
      record {
        action = use_ocr;
        non_whitespace_bytes = non_whitespace text.lines;
        suspicious_bytes = suspicious text.lines;
        control_codepoints = controls.all;
        distinct_control_codepoints = controls.distinct;
        damaging_control_codepoints = controls.damaging;
        distinct_damaging_control_codepoints = controls.distinct_damaging;
        damaging_control_ratio =
            if ltb 0 signals.decoded_codepoints
            then div (of_nat controls.damaging) (of_nat signals.decoded_codepoints)
            else nought;
        vertical_coverage = vertical_coverage page text;
        reason = [];
      }

  unfoldable pub evaluate :
      NativeTextQualityConfig D → PageArtifact → PageText D → NativeTextQuality D
  unfolding measure
  evaluate config page text =
      let q = measure page text in
      let damaged = leb config.damaging_control_minimum q.damaging_control_codepoints in
      let severe =
        damaged && le config.severe_damaging_control_ratio_threshold q.damaging_control_ratio in
      let diverse =
        damaged
        && le config.diverse_damaging_control_ratio_threshold q.damaging_control_ratio
        && leb config.diverse_damaging_control_type_threshold
            q.distinct_damaging_control_codepoints in
      let ratio = div (of_nat q.suspicious_bytes) (of_nat q.non_whitespace_bytes) in
      if not text.has_text || nat_beq q.non_whitespace_bytes 0
      then record q { action = use_ocr; reason = bytes "empty_native_text" }
      else if severe || diverse
      then record q { action = use_ocr; reason = bytes "corrupt_native_text_controls" }
      else if lt config.suspicious_byte_ratio_threshold ratio
      then record q { action = use_ocr; reason = bytes "suspicious_native_text" }
      else if ltb_ℤ (pos 0) page.height
          && ltb q.non_whitespace_bytes config.sparse_text_byte_threshold
          && lt q.vertical_coverage config.sparse_vertical_coverage_threshold
      then record q { action = merge_ocr; reason = bytes "sparse_native_text" }
      else record q { action = use_native; reason = bytes "usable_native_text" }

  -- The loop of `merge` over the recognized lines.
  unfoldable pub merge_lines : D → List (TextLine D) → ℕ → List (TextLine D) → List (TextLine D) × ℕ
  unfolding is_duplicate_line
  merge_lines threshold lines added [] = (lines, added)
  merge_lines threshold lines added (line ∷ ocr) =
      let skipped = merge_lines threshold lines added ocr in
      let taken = merge_lines threshold (lines ++ (line ∷ [])) (added + 1) ocr in
      if is_empty line.text || is_duplicate_line line lines threshold then skipped else taken

  unfoldable pub above : TextLine D → TextLine D → Bool
  above a b =
      if not (eq a.bbox.y0 b.bbox.y0) then lt a.bbox.y0 b.bbox.y0 else lt a.bbox.x0 b.bbox.x0

  unfoldable pub merge : NativeTextQualityConfig D → PageText D → PageText D → TextMergeResult D
  unfolding merge_lines above stable_sort
  merge config native_text ocr_text =
      let (lines, added) =
        merge_lines config.duplicate_overlap_threshold native_text.lines 0 ocr_text.lines in
      let sorted = stable_sort above lines in
      record {
        text = record native_text {
          lines = sorted;
          has_text = not (is_empty sorted);
          preferred_source = if ltb 0 added then TextSource.mixed else native_text.preferred_source;
        };
        added_ocr_lines = added;
      }
