-- ===== src/Pipeline/TextExtraction/Outcome.antt =====
-- cpp/pipeline/text_extraction_stage.cpp: when a page fails, and what a page that does not fail keeps.
use technical_doc_parser.Prelude.{
  ◌≤◌, ◌≡◌, refl, ◌⊎◌, inl, inr, Bool, true, false, ◌&&◌, ◌||◌, not, Option, none, some, List, [],
  ◌∷◌, ◌++◌, Text, nat_beq, nat_beq_iff, length, count, arith, if◌then◌else◌, Bool-cases,
  Option-cases,
}
use mathlib.Core.List.{append_assoc}
use technical_doc_parser.Prelude.Int.{ℤ, pos, ltb_ℤ}
use technical_doc_parser.Prelude.Double.{Double}
use technical_doc_parser.Common.Status.{Diagnostic}
use technical_doc_parser.Document.Text.{TextLine, PageText}
use technical_doc_parser.Image.Cache.{PageArtifact}
use technical_doc_parser.Pipeline.TextQuality.{
  NativeTextAction, use_native, use_ocr, merge_ocr, default_config,
}
use technical_doc_parser.Pipeline.TextQuality.Policy.{evaluate}
use technical_doc_parser.Pipeline.TextQuality.Merge.{merge_keeps}
use technical_doc_parser.Pipeline.TextExtraction.{
  OcrBackend, extract_page, extract_loop, native_texts, extract,
}

-- The native text was judged to be of no use.
abbrev pub is_unusable : NativeTextAction → Bool
is_unusable use_ocr = true
is_unusable use_native = false
is_unusable merge_ocr = false

abbrev pub is_some {ℓ} : {A : Type ℓ} → Option A → Bool
is_some none = false
is_some (some a) = true

action_cases : (a : NativeTextAction) → (a ≡ use_ocr) ⊎ (a ≡ use_native) ⊎ (a ≡ merge_ocr)
action_cases use_ocr = inl refl
action_cases use_native = inr (inl refl)
action_cases merge_ocr = inr (inr refl)

module _ {ℓ} {D : Type ℓ} ⦃d : Double D⦄ (print : ℤ → Text) (backend : OcrBackend D) (dpi : ℤ) where
  -- A page succeeds exactly for a positive DPI and unless its native text is of no use and cannot be
  -- recognized either: a failed enhancement of usable native text is no failure.
  pub extract_page_status :
      (page : PageArtifact) (text : PageText D)
      → (extract_page print backend dpi page text).status.ok_status ≡ (
          ltb_ℤ (pos 0) dpi
          && (not (is_unusable (evaluate default_config page text).action)
              || is_some (backend.recognize page dpi)))
  unfolding extract_page
  extract_page_status page text = elim (Bool-cases (ltb_ℤ (pos 0) dpi)) [
    | inr t ↦ rw (t, extract_page) refl
    | inl t ↦ elim (action_cases (evaluate default_config page text).action) [
      | inl a ↦ elim (Option-cases (backend.recognize page dpi)) [
        | inl o ↦ rw (t, a, o, extract_page) refl
        | inr (r, o) ↦ rw (t, a, o, extract_page) refl
      ]
      | inr (inl a) ↦ rw (t, a, extract_page) refl
      | inr (inr a) ↦ elim (Option-cases (backend.recognize page dpi)) [
        | inl o ↦ rw (t, a, o, extract_page) refl
        | inr (r, o) ↦ rw (t, a, o, extract_page) refl
      ]
    ]
  ]

  -- Unless the native text was judged to be of no use, the page's text holds, of the lines with any
  -- property, at least as many as the native text.
  pub extract_page_keeps :
      (p : TextLine D → Bool) (page : PageArtifact) (text : PageText D)
      → is_unusable (evaluate default_config page text).action ≡ false
      → count p text.lines ≤ count p (extract_page print backend dpi page text).value.lines
  unfolding extract_page
  extract_page_keeps p page text usable = elim (Bool-cases (ltb_ℤ (pos 0) dpi)) [
    | inr t ↦ rw (t, extract_page) (omega arith)
    | inl t ↦ elim (action_cases (evaluate default_config page text).action) [
      | inl a ↦ cc
      | inr (inl a) ↦ rw (t, a, extract_page) (omega arith)
      | inr (inr a) ↦ elim (Option-cases (backend.recognize page dpi)) [
        | inl o ↦ rw (t, a, o, extract_page) (omega arith)
        | inr (r, o) ↦ rw (t, a, o, extract_page) (merge_keeps p default_config text r.page_text).0
      ]
    ]
  ]

  -- What the pages give one by one, and whether all of them succeed.
  abbrev pub page_texts : List PageArtifact → List (PageText D) → List (PageText D)
  page_texts (page ∷ pages) (text ∷ texts) =
      (extract_page print backend dpi page text).value ∷ page_texts pages texts
  page_texts _ texts = texts

  abbrev pub all_succeed : List PageArtifact → List (PageText D) → Bool
  all_succeed (page ∷ pages) (text ∷ texts) =
      (extract_page print backend dpi page text).status.ok_status && all_succeed pages texts
  all_succeed _ _ = true

  loop_lem :
      (before : List (PageText D)) (diagnostics : List Diagnostic) (pages : List PageArtifact)
      (texts : List (PageText D))
      → length texts ≡ length pages
      → let result = extract_loop print backend dpi before diagnostics pages texts in
        (result.status.ok_status ≡ all_succeed pages texts)
        × ((if result.status.ok_status then result.value else before ++ page_texts pages texts)
            ≡ before ++ page_texts pages texts)
  unfolding extract_loop
  loop_lem before diagnostics [] texts same = (refl, refl)
  loop_lem before diagnostics (page ∷ pages) [] same = ground arith
  loop_lem before diagnostics (page ∷ pages) (text ∷ texts) same =
      elim (Bool-cases (extract_page print backend dpi page text).status.ok_status) [
        | inl t ↦
            let value = (extract_page print backend dpi page text).value in
            let more = (extract_page print backend dpi page text).diagnostics in
            let (oks, values) =
              loop_lem (before ++ (value ∷ [])) (diagnostics ++ more) pages texts
                (ground (arith, same)) in
            rw (t, extract_loop)
              (oks, rw (append_assoc before (value ∷ []) (page_texts pages texts)) at values)
        | inr t ↦ rw (t, extract_loop) (t, rw t refl)
      ]

  -- The stage succeeds exactly for a positive DPI and where the document's text can be read, has as
  -- many pages as the document, and each page succeeds; it then gives the text of every page in order.
  pub extract_lem :
      (extractor : Option (ℤ → List (PageText D) × Bool)) (pages : List PageArtifact)
      → let (texts, read) = native_texts print backend dpi extractor pages in
        let result = extract print backend dpi extractor pages in
        (result.status.ok_status ≡ (
          ltb_ℤ (pos 0) dpi
          && read
          && nat_beq (length texts) (length pages)
          && all_succeed pages texts))
        × ((if result.status.ok_status then result.value else page_texts pages texts)
            ≡ page_texts pages texts)
  unfolding extract
  extract_lem extractor pages =
      let texts = (native_texts print backend dpi extractor pages).0 in
      elim (Bool-cases (ltb_ℤ (pos 0) dpi)) [
        | inr t ↦ rw (t, extract) (refl, refl)
        | inl t ↦ elim (Bool-cases (native_texts print backend dpi extractor pages).1) [
          | inr r ↦ rw (t, r, extract) (refl, refl)
          | inl r ↦ elim (Bool-cases (nat_beq (length texts) (length pages))) [
            | inr n ↦ rw (t, r, n, extract) (refl, refl)
            | inl n ↦ rw (t, r, n, extract) (loop_lem [] [] pages texts ((nat_beq_iff _ _).0 n))
          ]
        ]
      ]
