-- ===== src/Pipeline/TextQuality/Merge.antt =====
-- cpp/pipeline/text_quality.cpp: the lines of a merge with recognized text.
use technical_doc_parser.Prelude.{
  ℕ, ◌+◌, ◌≤◌, ◌≡◌, Bool, false, ◌&&◌, ◌||◌, List, [], ◌∷◌, ◌++◌, arith, count,
}
use technical_doc_parser.Prelude.Double.{Double}
use technical_doc_parser.Prelude.Sort.{count-stable_sort}
use technical_doc_parser.Document.Text.{TextLine, PageText}
use technical_doc_parser.Pipeline.TextQuality.{is_duplicate_line, NativeTextQualityConfig}
use technical_doc_parser.Pipeline.TextQuality.Policy.{is_empty, merge_lines, above, merge}

module _ {ℓ} {D : Type ℓ} ⦃d : Double D⦄ (p : TextLine D → Bool) where
  count-append : (xs ys : List (TextLine D)) → count p (xs ++ ys) ≡ count p xs + count p ys
  count-append [] ys = omega arith
  count-append (x ∷ xs) ys = ground (arith, count-append xs ys)

  merge_lines_lem :
      (threshold : D) (lines : List (TextLine D)) (added : ℕ) (ocr : List (TextLine D))
      → let (lines', added') = merge_lines threshold lines added ocr in
        (count p lines ≤ count p lines')
        × (added ≤ added')
        × (count p lines' + added ≤ count p lines + added')
  unfolding merge_lines
  merge_lines_lem threshold lines added [] = (omega arith, omega arith, omega arith)
  merge_lines_lem threshold lines added (line ∷ ocr) =
      let skipped = merge_lines_lem threshold lines added ocr in
      let taken = merge_lines_lem threshold (lines ++ (line ∷ [])) (added + 1) ocr in
      ground (arith, skipped, taken, count-append lines (line ∷ []))

  pub merge_keeps :
      (config : NativeTextQualityConfig D) (native_text ocr_text : PageText D)
      → let result = merge config native_text ocr_text in
        (count p native_text.lines ≤ count p result.text.lines)
        × (count p result.text.lines ≤ count p native_text.lines + result.added_ocr_lines)
  unfolding merge
  merge_keeps config native_text ocr_text =
      let (kept, _, bound) =
        merge_lines_lem config.duplicate_overlap_threshold native_text.lines 0 ocr_text.lines in
      let (lines, added) =
        merge_lines config.duplicate_overlap_threshold native_text.lines 0 ocr_text.lines in
      let sorted = count-stable_sort above p lines in
      (omega (arith, kept, sorted), omega (arith, bound, sorted))

module _ {ℓ} {D : Type ℓ} ⦃d : Double D⦄ where
  -- A recognized line that is not to be added to these lines.
  abbrev pub is_dropped : D → List (TextLine D) → TextLine D → Bool
  is_dropped threshold lines line = is_empty line.text || is_duplicate_line line lines threshold

  -- Each of these lines has text and duplicates none of the lines before it.
  abbrev pub AreNew : D → List (TextLine D) → List (TextLine D) → Type 0
  AreNew threshold lines [] = Unit
  AreNew threshold lines (line ∷ added) =
      (is_dropped threshold lines line ≡ false) × AreNew threshold (lines ++ line ∷ []) added

  -- These are the lines that a merge adds: with the lines before it, they are its lines; they are new;
  -- they are recognized ones; and of the recognized lines with any property only those are missing
  -- that are empty or duplicate a line of the whole.
  abbrev pub AreAdded : D → List (TextLine D) → List (TextLine D) → List (TextLine D) → Type ℓ
  AreAdded threshold lines ocr added =
      AreNew threshold lines added
      × ((p : TextLine D → Bool) → count p added ≤ count p ocr)
      × ((p : TextLine D → Bool)
          → count p ocr
            ≤ count p added + count (λ l. p l && is_dropped threshold (lines ++ added) l) ocr)
