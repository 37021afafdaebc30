-- ===== src/Pipeline/Ordering/Outcome.antt =====
-- cpp/pipeline/reading_order_stage.cpp over
-- cpp/reading_order/docling_like_reading_order_backend.cpp: what the stage gives for a document.
use technical_doc_parser.Prelude.{
  ℕ, suc, ◌≡◌, refl, sym, ◌∙◌, ◌⊎◌, inl, inr, Bool, true, false, ◌&&◌, some, List, [], ◌∷◌, ◌++◌,
  Text, nat_beq_iff, length, count, all, arith, Bool-cases,
}
use mathlib.Core.List.{append_assoc, append-nil}
use technical_doc_parser.Prelude.Int.{ℤ}
use technical_doc_parser.Prelude.Double.{Double}
use technical_doc_parser.Common.Status.{ok}
use technical_doc_parser.Document.Layout.{PageLayout, PageReadingOrder}
use technical_doc_parser.Image.Cache.{PageArtifact}
use technical_doc_parser.ReadingOrder.Columns.{upto}
use technical_doc_parser.ReadingOrder.Backend.{Answer, refused, has_finite_box, order_page}
use technical_doc_parser.ReadingOrder.Backend.Complete.{
  block_indices, IsNumbered, order_page_complete,
}
use technical_doc_parser.Pipeline.Ordering.{OrderingResult, backend_failed, order_loop, order_pages}

and_first : (a b : Bool) → a ≡ false → (a && b) ≡ false
and_first a b h = ground (arith, h)

and_second : (a b : Bool) → b ≡ false → (a && b) ≡ false
and_second a b h = ground (arith, h)

and_both : (a b : Bool) → a ≡ true → b ≡ true → (a && b) ≡ true
and_both a b h k = ground (arith, h, k)

module _ {ℓ} {D : Type ℓ} ⦃d : Double D⦄ where
  abbrev pub is_finite_layout : PageLayout D → Bool
  is_finite_layout layout = all has_finite_box layout.blocks

  -- An order of a page that holds each block once, numbered by its place.
  abbrev pub IsOrderOf : PageLayout D → PageReadingOrder D → Type 0
  IsOrderOf layout result =
      ((p : ℕ → Bool)
        → count p (block_indices result.items) ≡ count p (upto 0 (length layout.blocks)))
      × IsNumbered result.items

  -- One such order for each page.
  abbrev pub AreOrdersOf : List (PageLayout D) → List (PageReadingOrder D) → Type 0
  AreOrdersOf [] [] = Unit
  AreOrdersOf (layout ∷ layouts) (result ∷ results) =
      IsOrderOf layout result × AreOrdersOf layouts results
  AreOrdersOf _ _ = ⊥

  order_page-refused :
      (layout : PageLayout D) → is_finite_layout layout ≡ false → order_page layout ≡ refused
  unfolding order_page
  order_page-refused layout h = rw (h, order_page) refl

  -- The stage succeeds with the orders of the pages behind earlier ones, or fails on a box that is not
  -- finite.
  abbrev pub Outcome : List (PageReadingOrder D) → List (PageLayout D) → OrderingResult D → Type ℓ
  Outcome before layouts result =
      ((result.status.ok_status ≡ true)
        × (all is_finite_layout layouts ≡ true)
        × (results : List (PageReadingOrder D)) × (result.value ≡ before ++ results)
        × AreOrdersOf layouts results)
      ⊎ ((result.status.ok_status ≡ false) × (all is_finite_layout layouts ≡ false))

  next :
      (before : List (PageReadingOrder D)) (layout : PageLayout D) (layouts : List (PageLayout D))
      (first : PageReadingOrder D) (result : OrderingResult D)
      → is_finite_layout layout ≡ true
      → IsOrderOf layout first
      → Outcome (before ++ first ∷ []) layouts result
      → Outcome before (layout ∷ layouts) result
  next before layout layouts first result h order (inl (good, finite, results, value, orders)) =
      inl (
        good,
        and_both _ _ h finite,
        first ∷ results,
        value ∙ append_assoc before (first ∷ []) results,
        (order, orders),
      )
  next before layout layouts first result h order (inr (bad, infinite)) =
      inr (bad, and_second _ _ infinite)

  module _ (print : ℤ → Text) where
    abbrev pub backend : PageArtifact → PageLayout D → Answer D
    backend page layout = order_page layout

    order_loop_lem :
        (index : ℕ) (before : List (PageReadingOrder D)) (pages : List PageArtifact)
        (layouts : List (PageLayout D))
        → length pages ≡ length layouts
        → (result : OrderingResult D) × (order_loop print backend index before pages layouts
            ≡ some result)
          × Outcome before layouts result
    unfolding order_loop
    order_loop_lem index before [] [] same = (
      record { status = ok; value = before },
      refl,
      inl (refl, refl, [], sym (append-nil before), tt),
    )
    order_loop_lem index before [] (layout ∷ layouts) same = ground arith
    order_loop_lem index before (page ∷ pages) [] same = ground arith
    order_loop_lem index before (page ∷ pages) (layout ∷ layouts) same =
        elim (Bool-cases (is_finite_layout layout)) [
          | inr h ↦ (
            record { status = backend_failed print backend index; value = before },
            rw (order_page-refused layout h, order_loop) refl,
            inr (refl, and_first _ _ h),
          )
          | inl h ↦
              let (result, on, complete, numbered) = order_page_complete layout h in
              let (rest, into, outcome) =
                order_loop_lem (suc index) (before ++ result ∷ []) pages layouts
                  (ground (arith, same)) in
              (
                rest,
                rw (on, order_loop) into,
                next before layout layouts result rest h (complete, numbered) outcome,
              )
        ]

    -- For as many layouts as pages the stage has a result: it succeeds, with one order for each page that
    -- holds each of its blocks once and is numbered by place, if all boxes are finite, and fails
    -- otherwise.
    pub order_pages_complete :
        (pages : List PageArtifact) (layouts : List (PageLayout D))
        → length pages ≡ length layouts
        → (result : OrderingResult D) × (order_pages print backend pages layouts ≡ some result)
          × Outcome [] layouts result
    unfolding order_pages
    order_pages_complete pages layouts same =
        let (result, on, outcome) = order_loop_lem 0 [] pages layouts same in
        (result, rw ((nat_beq_iff _ _).1 same, order_pages) on, outcome)
