-- ===== src/Pipeline/Ordering.antt =====
-- cpp/pipeline/reading_order_stage.cpp: the reading orders of the pages of a document. The result is `none`
-- where the backend throws, since the stage does not catch.
pub mod Outcome
mod Tests
use technical_doc_parser.Prelude.{
  ℕ, suc, Bool, false, not, Option, none, some, List, [], ◌∷◌, ◌++◌, Text, bytes, nat_beq, length,
  if◌then◌else◌,
}
use technical_doc_parser.Prelude.Int.{ℤ, pos}
use technical_doc_parser.Common.Status.{Status, ok, error}
use technical_doc_parser.Document.Layout.{PageLayout, PageReadingOrder}
use technical_doc_parser.Image.Cache.{PageArtifact}
use technical_doc_parser.ReadingOrder.Backend.{Answer, refused, thrown, ordered}

-- `StageResult` of the reading orders.
pub record OrderingResult {ℓ} (D : Type ℓ) : Type ℓ where
  pub status : Status
  pub value : List (PageReadingOrder D)

module _ {ℓ} {D : Type ℓ} (print : ℤ → Text)
    (backend : PageArtifact → PageLayout D → Answer D) where
  abbrev pub backend_failed : ℕ → Status
  backend_failed index =
      error (bytes "reading_order.backend_failed")
        (bytes "reading order failed for page " ++ print (pos (suc index))) [] false

  -- The loop over the pages, from an index on.
  unfoldable pub order_loop :
      ℕ
      → List (PageReadingOrder D)
      → List PageArtifact
      → List (PageLayout D)
      → Option (OrderingResult D)
  order_loop index before (page ∷ pages) (layout ∷ layouts) = elim (backend page layout) [
    | refused ↦ some (record { status = backend_failed index; value = before })
    | thrown ↦ none
    | ordered result ↦ order_loop (suc index) (before ++ result ∷ []) pages layouts
  ]
  order_loop index before _ _ = some (record { status = ok; value = before })

  -- `ReadingOrderStage::order`
  unfoldable pub order_pages : List PageArtifact → List (PageLayout D) → Option (OrderingResult D)
  unfolding order_loop
  order_pages pages layouts =
      if not (nat_beq (length pages) (length layouts))
      then some (record {
        status =
            error (bytes "reading_order.page_count_mismatch")
              (bytes "page artifact count does not match layout count") [] false;
        value = [];
      })
      else order_loop 0 [] pages layouts
