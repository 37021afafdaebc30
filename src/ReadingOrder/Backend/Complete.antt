-- ===== src/ReadingOrder/Backend/Complete.antt =====
-- cpp/reading_order/docling_like_reading_order_backend.cpp: the reading order of a page holds each of its
-- blocks once.
use technical_doc_parser.Prelude.{
  ℕ, zero, suc, ◌+◌, ◌≡◌, refl, sym, ap, ◌∙◌, ◌⊎◌, inl, inr, Bool, true, false, ◌||◌, not, List, [],
  ◌∷◌, ◌++◌, map, bytes, length, length-append, count, all, arith,
}
use mathlib.Core.List.{append_assoc, append-nil}
use technical_doc_parser.Prelude.Double.{Double}
use technical_doc_parser.Document.Layout.{
  LayoutBlockType, LayoutBlock, PageLayout, ReadingOrderItem, PageReadingOrder,
}
use technical_doc_parser.ReadingOrder.Columns.{PageElement, element_at, blank_element, upto}
use technical_doc_parser.ReadingOrder.Groups.{predict_group_order}
use technical_doc_parser.ReadingOrder.Groups.Consumed.{count-append, count-map, map-get_or}
use technical_doc_parser.ReadingOrder.Groups.Complete.{count-predict_group_order}
use technical_doc_parser.ReadingOrder.Backend.{
  is_header, is_footer, ordered, append_items, collect_elements, has_finite_box, order_page,
  first_trace,
}
use technical_doc_parser.ReadingOrder.Backend.Body.{order_body_complete}

abbrev pub block_indices : List ReadingOrderItem → List ℕ
block_indices items = map (λ i. i.layout_block_index) items

abbrev pub sequence_indices : List ReadingOrderItem → List ℕ
sequence_indices items = map (λ i. i.sequence_index) items

-- Each item has its place in the list as its sequence index.
abbrev pub IsNumbered : List ReadingOrderItem → Type 0
IsNumbered items = sequence_indices items ≡ upto 0 (length items)

type_cases :
    (t : LayoutBlockType)
    → ((is_header t ≡ true) × (is_footer t ≡ false))
      ⊎ ((is_header t ≡ false) × (is_footer t ≡ true))
      ⊎ ((is_header t ≡ false) × (is_footer t ≡ false))
type_cases LayoutBlockType.header = inl (refl, refl)
type_cases LayoutBlockType.footer = inr (inl (refl, refl))
type_cases LayoutBlockType.unknown = inr (inr (refl, refl))
type_cases LayoutBlockType.title = inr (inr (refl, refl))
type_cases LayoutBlockType.text = inr (inr (refl, refl))
type_cases LayoutBlockType.list = inr (inr (refl, refl))
type_cases LayoutBlockType.table = inr (inr (refl, refl))
type_cases LayoutBlockType.figure = inr (inr (refl, refl))

map_append {ℓ κ} :
    {A : Type ℓ} {B : Type κ} (f : A → B) (xs ys : List A) → map f (xs ++ ys) ≡ map f xs ++ map f ys
map_append f [] ys = refl
map_append f (x ∷ xs) ys = ap (◌∷◌ (f x)) (map_append f xs ys)

upto-snoc : (k n : ℕ) → upto k (suc n) ≡ upto k n ++ (k + n) ∷ []
upto-snoc k zero = ap (λ i. i ∷ []) (add_nought k)
  where
    add_nought : (k : ℕ) → k ≡ k + 0
    add_nought k = omega arith
upto-snoc k (suc n) =
    ap (◌∷◌ k) (upto-snoc (suc k) n ∙ ap (λ i. upto (suc k) n ++ i ∷ []) (add_suc k n))
  where
    add_suc : (k n : ℕ) → suc k + n ≡ k + suc n
    add_suc k n = omega arith

module _ {ℓ} {D : Type ℓ} ⦃d : Double D⦄ where
  abbrev index_of : PageElement D → ℕ
  index_of e = e.layout_block_index

  -- The headers, the footers and the other blocks are all the blocks.
  count-collect_elements :
      (p : ℕ → Bool) (k : ℕ) (blocks : List (LayoutBlock D))
      → count p (map index_of (collect_elements is_header k blocks))
          + count p
              (map index_of (collect_elements (λ t. not (is_header t || is_footer t)) k blocks))
          + count p (map index_of (collect_elements is_footer k blocks))
        ≡ count p (upto k (length blocks))
  unfolding collect_elements
  count-collect_elements p k [] = omega arith
  count-collect_elements p k (b ∷ blocks) = elim (type_cases b.block_type) [
    | inl (h, f) ↦
        rw (h, f, collect_elements) (ground (arith, count-collect_elements p (suc k) blocks))
    | inr (inl (h, f)) ↦
        rw (h, f, collect_elements) (ground (arith, count-collect_elements p (suc k) blocks))
    | inr (inr (h, f)) ↦
        rw (h, f, collect_elements) (ground (arith, count-collect_elements p (suc k) blocks))
  ]

  abbrev item : List (PageElement D) → List ReadingOrderItem → ℕ → ReadingOrderItem
  item elements items i = record {
    layout_block_id = (element_at elements i).block.id;
    layout_block_index = index_of (element_at elements i);
    sequence_index = length items;
  }

  block_indices-append_items :
      (elements : List (PageElement D)) (order : List ℕ) (items : List ReadingOrderItem)
      → block_indices (append_items elements order items)
        ≡ block_indices items ++ map (λ i. index_of (element_at elements i)) order
  unfolding append_items
  block_indices-append_items elements [] items = sym (append-nil _)
  block_indices-append_items elements (i ∷ order) items =
      let rest = map (λ j. index_of (element_at elements j)) order in
      block_indices-append_items elements order (items ++ item elements items i ∷ [])
      ∙ ap (λ l. l ++ rest)
          (map_append (λ j. j.layout_block_index) items (item elements items i ∷ []))
      ∙ append_assoc (block_indices items) (index_of (element_at elements i) ∷ []) rest

  append_items-IsNumbered :
      (elements : List (PageElement D)) (order : List ℕ) (items : List ReadingOrderItem)
      → IsNumbered items
      → IsNumbered (append_items elements order items)
  unfolding append_items
  append_items-IsNumbered elements [] items ok = ok
  append_items-IsNumbered elements (i ∷ order) items ok =
      append_items-IsNumbered elements order (items ++ item elements items i ∷ []) (
        map_append (λ j. j.sequence_index) items (item elements items i ∷ [])
        ∙ ap (λ l. l ++ length items ∷ []) ok
        ∙ ap (λ k. upto 0 (length items) ++ k ∷ []) (zero_add (length items))
        ∙ sym (upto-snoc 0 (length items))
        ∙ ap (upto 0) (snoc (length items) (length-append items (item elements items i ∷ []))))
    where
      zero_add : (n : ℕ) → n ≡ 0 + n
      zero_add n = omega arith

      snoc : (n : ℕ) {m : ℕ} → m ≡ n + 1 → suc n ≡ m
      snoc n h = omega (arith, h)

  -- The items of a group in an order that holds each of its indices once.
  count-items :
      (p : ℕ → Bool) (elements : List (PageElement D)) (order : List ℕ)
      (items : List ReadingOrderItem)
      → ((q : ℕ → Bool) → count q order ≡ count q (upto 0 (length elements)))
      → count p (block_indices (append_items elements order items))
        ≡ count p (block_indices items) + count p (map index_of elements)
  count-items p elements order items complete =
      let read : ℕ → PageElement D = λ i. element_at elements i in
      omega (
        arith,
        ap (count p) (block_indices-append_items elements order items),
        count-append p (block_indices items) (map (λ i. index_of (read i)) order),
        count-map p (λ i. index_of (read i)) order,
        complete (λ i. p (index_of (read i))),
        count-map (λ e. p (index_of e)) read (upto 0 (length elements)),
        ap (count (λ e. p (index_of e))) (map-get_or elements blank_element),
        count-map p index_of elements,
      )

  -- A page whose boxes are finite is ordered: its items hold the index of each layout block once, and
  -- their sequence indices are their places.
  pub order_page_complete :
      (layout : PageLayout D)
      → all has_finite_box layout.blocks ≡ true
      → (result : PageReadingOrder D) × (order_page layout ≡ ordered result)
        × ((p : ℕ → Bool)
            → count p (block_indices result.items) ≡ count p (upto 0 (length layout.blocks)))
        × IsNumbered result.items
  unfolding order_page
  order_page_complete layout finite =
      let headers = collect_elements is_header 0 layout.blocks in
      let body = collect_elements (λ t. not (is_header t || is_footer t)) 0 layout.blocks in
      let footers = collect_elements is_footer 0 layout.blocks in
      let top = predict_group_order headers (bytes "header") 0 first_trace in
      let (middle, next, on, all) = order_body_complete body top.next_band_index top.trace in
      let bottom = predict_group_order footers (bytes "footer") next middle.trace in
      let header_items = append_items headers top.order [] in
      let body_items = append_items body middle.order header_items in
      let items = append_items footers bottom.order body_items in
      (
        record {
          page_index = layout.page_index;
          page_number = layout.page_number;
          items = items;
          trace = bottom.trace;
        },
        rw (finite, on, order_page) refl,
        λ p. omega (
          arith,
          count-items p footers bottom.order body_items
              (λ q. count-predict_group_order footers (bytes "footer") q next middle.trace),
          count-items p body middle.order header_items all,
          count-items p headers top.order []
              (λ q. count-predict_group_order headers (bytes "header") q 0 first_trace),
          count-collect_elements p 0 layout.blocks,
        ),
        append_items-IsNumbered footers bottom.order body_items (
            append_items-IsNumbered body middle.order header_items
              (append_items-IsNumbered headers top.order [] refl)),
      )
