-- ===== src/ReadingOrder/Backend/Placed.antt =====
-- cpp/reading_order/docling_like_reading_order_backend.cpp: each block of a group has a placement in the
-- trace.
use technical_doc_parser.Prelude.{
  ℕ, ◌-◌, ◌≡◌, refl, ap, ◌∙◌, inl, inr, Bool, true, false, ◌||◌, not, Option, none, some, List, [],
  ◌∷◌, ◌++◌, map, Text, text_eq, ◌==◌, length, count, any, set, replicate, arith, Bool-cases,
}
use technical_doc_parser.Prelude.Dict.{lookup, emplace, lookup-emplace}
use technical_doc_parser.Prelude.Double.{Double}
use technical_doc_parser.Document.Layout.{ReadingOrderPlacement, ReadingOrderTrace}
use technical_doc_parser.ReadingOrder.Columns.{
  PageElement, ColumnRange, element_at, box_at, center_y, locate_columns, sorted_by_position, upto,
}
use technical_doc_parser.ReadingOrder.Columns.Infer.{keep, infer_columns}
use technical_doc_parser.ReadingOrder.Topological.Complete.{count-snoc}
use technical_doc_parser.ReadingOrder.Bands.{order_band, band_placements}
use technical_doc_parser.ReadingOrder.Groups.{
  Grouping, take_band, append_band, append_separator, separate, predict_group_order,
  spans_all_columns,
}
use technical_doc_parser.ReadingOrder.Groups.Consumed.{count-append}
use technical_doc_parser.ReadingOrder.Groups.Complete.{count-order_band}
use technical_doc_parser.ReadingOrder.Backend.{placement_map}

-- A block of this id is placed.
abbrev pub has : Text → List ReadingOrderPlacement → Bool
has id placements = any (λ pl. pl.layout_block_id == id) placements

abbrev pub is_found : Option ReadingOrderPlacement → Bool
is_found none = false
is_found (some pl) = true

pub has_append :
    (id : Text) (ps qs : List ReadingOrderPlacement) → has id (ps ++ qs) ≡ (has id ps || has id qs)
has_append id [] qs = refl
has_append id (pl ∷ ps) qs = ground (arith, has_append id ps qs)

pub lookup-placement_map :
    (id : Text) (ps : List ReadingOrderPlacement) (m : List (Text × ReadingOrderPlacement))
    → is_found (lookup id (placement_map ps m)) ≡ (has id ps || is_found (lookup id m))
unfolding placement_map
lookup-placement_map id [] m = refl
lookup-placement_map id (pl ∷ ps) m = ground (
  arith,
  lookup-placement_map id ps (emplace pl.layout_block_id pl m),
  lookup-emplace pl.layout_block_id id pl m,
)

-- Where nothing fails a test, nothing fails a weaker one.
pub count-weaken {ℓ} :
    {A : Type ℓ} (q r : A → Bool) (xs : List A)
    → ((x : A) → q x ≡ true → r x ≡ true)
    → count (λ x. not (q x)) xs ≡ 0
    → count (λ x. not (r x)) xs ≡ 0
count-weaken q r [] weaker none_fails = refl
count-weaken q r (x ∷ xs) weaker none_fails = elim (Bool-cases (q x)) [
  | inl t ↦
      ground (
        arith,
        weaker x t,
        none_fails,
        t,
        count-weaken q r xs weaker (ground (arith, t, none_fails)),
      )
  | inr t ↦ ground (arith, t, none_fails)
]

or_first : (a b : Bool) → a ≡ true → (a || b) ≡ true
or_first a b h = ground (arith, h)

or_last : (a b : Bool) → b ≡ true → (a || b) ≡ true
or_last a b h = ground (arith, h)

missing_one : (r : ℕ → Bool) (i : ℕ) → r i ≡ true → count (λ j. not (r j)) (i ∷ []) ≡ 0
missing_one r i h = ground (arith, h)

module _ {ℓ} {D : Type ℓ} ⦃d : Double D⦄ (elements : List (PageElement D)) (group : Text) where
  abbrev pub id_at : ℕ → Text
  id_at index = (element_at elements index).block.id

  -- No index of the order is without a placement.
  abbrev pub Placed : Grouping D → Type 0
  Placed s = count (λ i. not (has (id_at i) s.trace.placements)) s.order ≡ 0

  has-band_placements :
      (all : List (PageElement D)) (band_index : ℕ) (locate : PageElement D → ColumnRange)
      (band : List ℕ)
      → let local = map (element_at elements) band in
        count
          (λ i. not (has (id_at i) (band_placements all group band_index local (map locate local))))
          band
        ≡ 0
  unfolding band_placements
  has-band_placements all band_index locate [] = refl
  has-band_placements all band_index locate (b ∷ band) =
      let local = map (element_at elements) band in
      let rest = band_placements all group band_index local (map locate local) in
      placed_cons b band rest (λ i. id_at b == id_at i)
        ((text_eq.agree_iff (id_at b) (id_at b)).1 refl)
        (has-band_placements all band_index locate band)
    where
      placed_cons :
          (b : ℕ) (band : List ℕ) (rest : List ReadingOrderPlacement) (q : ℕ → Bool)
          → q b ≡ true
          → count (λ i. not (has (id_at i) rest)) band ≡ 0
          → count (λ i. not (q i || has (id_at i) rest)) (b ∷ band) ≡ 0
      placed_cons b band rest q here none_fails =
          let tail =
            count-weaken (λ i. has (id_at i) rest) (λ i. q i || has (id_at i) rest) band
              (λ i h. ground (arith, h)) none_fails in
          ground (arith, here, tail)

  order_band-placements :
      (b : ℕ) (band : List ℕ) (index : ℕ) (trace : ReadingOrderTrace D)
      → let local = map (element_at elements) (b ∷ band) in
        let columns = infer_columns local (upto 0 (length local)) in
        (order_band elements (b ∷ band) group index trace).1.placements
        ≡ trace.placements
          ++ band_placements local group index local
              (map (λ e. locate_columns e.bbox columns) local)
  unfolding order_band
  order_band-placements b band index trace = refl

  -- What is placed stays placed, and the blocks of a band are.
  has-order_band :
      (b : ℕ) (band : List ℕ) (index : ℕ) (trace : ReadingOrderTrace D)
      → let placements = (order_band elements (b ∷ band) group index trace).1.placements in
        ((id : Text) → has id trace.placements ≡ true → has id placements ≡ true)
        × (count (λ i. not (has (id_at i) placements)) (b ∷ band) ≡ 0)
  has-order_band b band index trace =
      let local = map (element_at elements) (b ∷ band) in
      let columns = infer_columns local (upto 0 (length local)) in
      let locate : PageElement D → ColumnRange = λ e. locate_columns e.bbox columns in
      let added = band_placements local group index local (map locate local) in
      let same = order_band-placements b band index trace in
      (
        λ id h. ap (has id) same ∙ has_append id trace.placements added ∙ or_first _ _ h,
        count-weaken (λ i. has (id_at i) added) _ (b ∷ band)
            (λ i h.
              ap (has (id_at i)) same ∙ has_append (id_at i) trace.placements added ∙ or_last _ _ h)
            (has-band_placements local index locate (b ∷ band)),
      )

  append_band-Placed :
      (band : List ℕ) (s : Grouping D) → Placed s → Placed (append_band elements group band s)
  unfolding append_band
  append_band-Placed [] s ok = ok
  append_band-Placed (b ∷ band) s ok =
      let (indices, trace) = order_band elements (b ∷ band) group s.next_band_index s.trace in
      let (stays, placed) = has-order_band b band s.next_band_index s.trace in
      let missing : ℕ → Bool = λ i. not (has (id_at i) trace.placements) in
      omega (
        arith,
        count-append missing s.order indices,
        count-order_band missing elements (b ∷ band) group s.next_band_index s.trace,
        placed,
        count-weaken (λ i. has (id_at i) s.trace.placements) (λ i. has (id_at i) trace.placements)
            s.order (λ i h. stays (id_at i) h) ok,
      )

  append_separator-Placed :
      (column_count separator : ℕ) (s : Grouping D)
      → Placed s
      → Placed (append_separator elements group column_count separator s)
  unfolding append_separator
  append_separator-Placed column_count separator s ok =
      let next = append_separator elements group column_count separator s in
      let missing : ℕ → Bool = λ i. not (has (id_at i) next.trace.placements) in
      let here = (text_eq.agree_iff (id_at separator) (id_at separator)).1 refl in
      let found =
        has_append (id_at separator) s.trace.placements (placement column_count separator s ∷ []) in
      omega (
        arith,
        count-snoc missing s.order separator,
        missing_one (λ i. has (id_at i) next.trace.placements) separator
            (found ∙ or_last _ _ (or_first _ _ here)),
        count-weaken (λ i. has (id_at i) s.trace.placements)
            (λ i. has (id_at i) next.trace.placements) s.order
            (λ i h.
              has_append (id_at i) s.trace.placements (placement column_count separator s ∷ [])
              ∙ or_first _ _ h)
            ok,
      )
    where
      placement : ℕ → ℕ → Grouping D → ReadingOrderPlacement
      placement column_count separator s = record {
        layout_block_id = id_at separator;
        group = group;
        band_index = s.next_band_index;
        column_start = 0;
        column_end = column_count - 1;
        parent_layout_block_id = [];
      }

  separate-Placed :
      (column_count : ℕ) (remaining separators : List ℕ) (consumed : List Bool) (s : Grouping D)
      → Placed s
      → Placed (separate elements group column_count remaining separators consumed s)
  unfolding separate
  separate-Placed column_count remaining [] consumed s ok = append_band-Placed _ s ok
  separate-Placed column_count remaining (separator ∷ separators) consumed s ok =
      let (band, flags) =
        take_band elements group (center_y (box_at elements separator)) remaining consumed in
      separate-Placed column_count remaining separators (set flags separator true) _ (
        append_separator-Placed column_count separator (append_band elements group band s)
          (append_band-Placed band s ok))

  pub predict_group_order-Placed :
      (next_band_index : ℕ) (trace : ReadingOrderTrace D)
      → Placed (predict_group_order elements group next_band_index trace)
  unfolding predict_group_order
  predict_group_order-Placed next_band_index trace =
      let all_indices = upto 0 (length elements) in
      let columns = infer_columns elements all_indices in
      let spans : ℕ → Bool = λ index. spans_all_columns (box_at elements index) columns in
      separate-Placed (length columns) (keep (λ index. not (spans index)) all_indices)
        (sorted_by_position elements (keep spans all_indices)) (replicate (length elements) false)
        (record { next_band_index = next_band_index; trace = trace; order = [] }) refl
