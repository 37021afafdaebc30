-- ===== src/ReadingOrder/Groups/Complete.antt =====
-- cpp/reading_order/docling_like_reading_order_backend.cpp: the order of a group holds each block once.
use technical_doc_parser.Prelude.{
  ℕ, zero, suc, ◌+◌, ◌<◌, ◌≡◌, refl, sym, ap, ◌∙◌, subst, inl, inr, nat_beq_iff, Bool, true, false,
  ◌||◌, not, List, [], ◌∷◌, map, Text, nat_beq, length, count, get_or, set, replicate, All,
  length-replicate, length-map, arith, Bool-cases,
}
use technical_doc_parser.Prelude.Double.{Double}
use technical_doc_parser.Prelude.Sort.{count-stable_sort}
use technical_doc_parser.Document.Layout.{ReadingOrderTrace}
use technical_doc_parser.ReadingOrder.Columns.{
  PageElement, element_at, box_at, center_y, locate_columns, sorted_by_position, position_less,
  upto,
}
use technical_doc_parser.ReadingOrder.Columns.Infer.{keep, infer_columns}
use technical_doc_parser.ReadingOrder.Topological.Complete.{
  count-stable_topological_order, count-snoc, length-set,
}
use technical_doc_parser.ReadingOrder.Bands.{order_band}
use technical_doc_parser.ReadingOrder.Groups.{
  Grouping, take_band, append_band, append_separator, separate, predict_group_order,
  spans_all_columns,
}
use technical_doc_parser.ReadingOrder.Groups.Consumed.{
  count-append, count-map, count-keep, map-get_or, occurs, Distinct, Distinct-keep, All-keep,
  unconsumed, unconsumed-set, take_band-Takes,
}

get-replicate : (n i : ℕ) → get_or (replicate n false) i false ≡ false
get-replicate zero i = refl
get-replicate (suc n) zero = refl
get-replicate (suc n) (suc i) = get-replicate n i

differ : (q : ℕ → Bool) (s i : ℕ) → q s ≡ true → q i ≡ false → nat_beq s i ≡ false
differ q s i yes_s no_i = elim (Bool-cases (nat_beq s i)) [
  | inl t ↦ cc (ap q ((nat_beq_iff s i).0 t), yes_s, no_i)
  | inr t ↦ t
]

neither : (a b : Bool) → a ≡ false → b ≡ false → (a || b) ≡ false
neither a b h k = ground (arith, h, k)

module _ {ℓ} {D : Type ℓ} ⦃d : Double D⦄ where
  -- The order of a band holds each index of the band as often as the band.
  pub count-order_band :
      (p : ℕ → Bool) (elements : List (PageElement D)) (band : List ℕ) (group : Text) (index : ℕ)
      (trace : ReadingOrderTrace D)
      → count p (order_band elements band group index trace).0 ≡ count p band
  unfolding order_band
  count-order_band p elements [] group index trace = refl
  count-order_band p elements (i ∷ band) group index trace =
      let local = map (element_at elements) (i ∷ band) in
      let columns = infer_columns local (upto 0 (length local)) in
      let ranges = map (λ e. locate_columns e.bbox columns) local in
      let read : ℕ → ℕ = λ l. get_or (i ∷ band) l 0 in
      count-map p read _
      ∙ count-stable_topological_order local ranges _ (λ l. p (read l)) _ trace.cycle_breaks
      ∙ ap (λ n. count (λ l. p (read l)) (upto 0 n)) (length-map (element_at elements) (i ∷ band))
      ∙ sym (count-map p read (upto 0 (length (i ∷ band))))
      ∙ ap (count p) (map-get_or (i ∷ band) 0)

  module _ (elements : List (PageElement D)) (group : Text) where
    count-append_band :
        (p : ℕ → Bool) (band : List ℕ) (s : Grouping D)
        → count p (append_band elements group band s).order ≡ count p s.order + count p band
    unfolding append_band
    count-append_band p [] s = omega arith
    count-append_band p (i ∷ band) s =
        count-append p s.order _
        ∙ ap (λ n. count p s.order + n)
            (count-order_band p elements (i ∷ band) group s.next_band_index s.trace)

    unconsumed-replicate : (n : ℕ) (is : List ℕ) → unconsumed (replicate n false) is ≡ is
    unconsumed-replicate n [] = refl
    unconsumed-replicate n (i ∷ is) =
        rw (get-replicate n i) (ap (◌∷◌ i) (unconsumed-replicate n is))

    -- No separator is among the indices that are not separators.
    abbrev Apart : List ℕ → List ℕ → Type 0
    Apart remaining separators = count (λ s. occurs s remaining) separators ≡ 0

    count-separate :
        (p : ℕ → Bool) (column_count : ℕ) (remaining separators : List ℕ) (consumed : List Bool)
        (s : Grouping D)
        → Distinct remaining
        → All (λ i. i < length consumed) remaining
        → Apart remaining separators
        → count p (separate elements group column_count remaining separators consumed s).order
          ≡ count p s.order + count p separators + count p (unconsumed consumed remaining)
    unfolding separate append_separator
    count-separate p column_count remaining [] consumed s distinct inside disjoint =
        omega (arith, count-append_band p (unconsumed consumed remaining) s)
    count-separate p column_count remaining (separator ∷ separators) consumed s distinct inside
          disjoint =
        let y = center_y (box_at elements separator) in
        let (band, flags) = take_band elements group y remaining consumed in
        let (size, other, all) =
          take_band-Takes elements group y remaining consumed distinct inside in
        let (alone, rest) = apart_cons remaining separator separators disjoint in
        let next =
          append_separator elements group column_count separator
            (append_band elements group band s) in
        omega (
          arith,
          count-separate p column_count remaining separators (set flags separator true) next
              distinct
              (subst (λ n. All (λ i. i < n) remaining)
                (sym (length-set flags separator true ∙ size)) inside)
              rest,
          ap (count p) (unconsumed-set flags separator remaining alone),
          all p,
          count-append_band p band s,
          count-snoc p (append_band elements group band s).order separator,
          count-cons p separator separators,
        )
      where
        apart_cons :
            (remaining : List ℕ) (separator : ℕ) (separators : List ℕ)
            → Apart remaining (separator ∷ separators)
            → (occurs separator remaining ≡ false) × Apart remaining separators
        apart_cons remaining separator separators h = ground (arith, h)

        count-cons :
            (p : ℕ → Bool) (i : ℕ) (is : List ℕ) → count p (i ∷ is) ≡ count p (i ∷ []) + count p is
        count-cons p i is = ground arith

    keep-Apart :
        (q : ℕ → Bool) (remaining separators : List ℕ)
        → ((s : ℕ) → q s ≡ true → occurs s remaining ≡ false)
        → Apart remaining (keep q separators)
    keep-Apart q remaining [] h = refl
    keep-Apart q remaining (s ∷ separators) h = elim (Bool-cases (q s)) [
      | inl t ↦ rw (t, keep) (ground (arith, h s t, keep-Apart q remaining separators h))
      | inr t ↦ rw (t, keep) (keep-Apart q remaining separators h)
    ]

    occurs-not :
        (q : ℕ → Bool) (s : ℕ) (is : List ℕ)
        → q s ≡ true
        → occurs s (keep (λ i. not (q i)) is) ≡ false
    occurs-not q s [] h = refl
    occurs-not q s (i ∷ is) h = elim (Bool-cases (q i)) [
      | inl t ↦ rw (t, keep) (occurs-not q s is h)
      | inr t ↦ rw (t, keep) (neither _ _ (differ q s i h t) (occurs-not q s is h))
    ]

    -- The order of a group of blocks holds the index of each of them once.
    pub count-predict_group_order :
        (p : ℕ → Bool) (next_band_index : ℕ) (trace : ReadingOrderTrace D)
        → count p (predict_group_order elements group next_band_index trace).order
          ≡ count p (upto 0 (length elements))
    unfolding predict_group_order sorted_by_position
    count-predict_group_order p next_band_index trace =
        let n = length elements in
        let all_indices = upto 0 n in
        let columns = infer_columns elements all_indices in
        let spans : ℕ → Bool = λ index. spans_all_columns (box_at elements index) columns in
        let remaining = keep (λ index. not (spans index)) all_indices in
        let found = keep spans all_indices in
        let separators = sorted_by_position elements found in
        let start : Grouping D = record {
          next_band_index = next_band_index;
          trace = trace;
          order = [];
        } in
        let disjoint =
          count-stable_sort (position_less elements) (λ s. occurs s remaining) found
          ∙ keep-Apart spans remaining all_indices (λ s h. occurs-not spans s all_indices h) in
        omega (
          arith,
          count-separate p (length columns) remaining separators (replicate n false) start
              (Distinct-keep (λ index. not (spans index)) 0 n)
              (subst (λ m. All (λ i. i < m) remaining) (sym (length-replicate n false))
                (All-keep (λ index. not (spans index)) n 0 n (omega arith)))
              disjoint,
          count-stable_sort (position_less elements) p found,
          count-keep p spans all_indices,
          ap (count p) (unconsumed-replicate n remaining),
        )
