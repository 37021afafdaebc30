-- ===== src/ReadingOrder/Backend/Body.antt =====
-- cpp/reading_order/docling_like_reading_order_backend.cpp: the order of the body holds each of its blocks
-- once, and no placement is missing.
use technical_doc_parser.Prelude.{
  ℕ, ◌+◌, ◌≡◌, refl, sym, ap, ◌∙◌, inl, inr, Bool, true, false, ◌||◌, not, none, some, List, [],
  ◌∷◌, ◌++◌, map, Text, text_eq, nat_eq, length, count, get_or, length-map, arith, if◌then◌else◌,
  Option-cases, bytes,
}
use technical_doc_parser.Prelude.Dict.{lookup}
use technical_doc_parser.Prelude.Double.{Double}
use technical_doc_parser.Prelude.Sort.{count-stable_sort}
use technical_doc_parser.Document.Layout.{ReadingOrderPlacement, ReadingOrderTrace}
use technical_doc_parser.ReadingOrder.Columns.{
  PageElement, element_at, blank_element, sorted_by_position, position_less, upto,
}
use technical_doc_parser.ReadingOrder.Columns.Infer.{keep}
use technical_doc_parser.ReadingOrder.Topological.Complete.{count-snoc}
use technical_doc_parser.ReadingOrder.Groups.{predict_group_order}
use technical_doc_parser.ReadingOrder.Groups.Consumed.{count-map, count-keep, map-get_or}
use technical_doc_parser.ReadingOrder.Groups.Complete.{count-predict_group_order}
use technical_doc_parser.ReadingOrder.Backend.{
  BodyOrder, is_nothing, list_or_empty, caption_parent, captions_of, root_indices, placement_map,
  attached, attach, attach_all, order_body,
}
use technical_doc_parser.ReadingOrder.Backend.Captions.{
  sum, sum_same, is_parent, lookup-captions_of, caption_parent-root,
}
use technical_doc_parser.ReadingOrder.Backend.Sums.{
  count-one, count-kept, sum_add, sum-count, sum_same_weights, sum-children,
}
use technical_doc_parser.ReadingOrder.Backend.Placed.{
  has, is_found, lookup-placement_map, predict_group_order-Placed,
}

module _ {ℓ} {D : Type ℓ} ⦃d : Double D⦄ (elements : List (PageElement D)) where
  abbrev id_at : ℕ → Text
  id_at index = (element_at elements index).block.id

  abbrev found : List (Text × ReadingOrderPlacement) → ℕ → Bool
  found placements index = is_found (lookup (id_at index) placements)

  attach_complete :
      (placements : List (Text × ReadingOrderPlacement)) (id : Text) (captions : List ℕ)
      (s : BodyOrder D)
      → is_found (lookup id placements) ≡ true
      → (next : BodyOrder D) × (attach elements placements id captions s ≡ some next)
        × ((p : ℕ → Bool) → count p next.order ≡ count p s.order + count p captions)
  unfolding attach attached
  attach_complete placements id [] s ok = (s, refl, λ p. omega arith)
  attach_complete placements id (caption ∷ captions) s ok =
      elim (Option-cases (lookup id placements)) [
        | inl t ↦ absurd (cc (ok, ap is_found t))
        | inr (placement, t) ↦
            let (next, on, all) =
              attach_complete placements id captions (attached elements placement id caption s)
                ok in
            (
              next,
              rw (t, attach) on,
              λ p. omega (arith, all p, count-snoc p s.order caption, count-one p caption captions),
            )
      ]

  -- What a root and its captions add to the order.
  abbrev weight : (ℕ → Bool) → List (ℕ × List ℕ) → ℕ → ℕ
  weight p captions index = count p (index ∷ []) + count p (list_or_empty (lookup index captions))

  attach_all_complete :
      (placements : List (Text × ReadingOrderPlacement)) (captions : List (ℕ × List ℕ))
      (roots : List ℕ) (s : BodyOrder D)
      → count (λ i. not (found placements i)) roots ≡ 0
      → (next : BodyOrder D) × (attach_all elements placements captions roots s ≡ some next)
        × ((p : ℕ → Bool) → count p next.order ≡ count p s.order + sum (weight p captions) roots)
  unfolding attach_all sorted_by_position
  attach_all_complete placements captions [] s ok = (s, refl, λ p. omega arith)
  attach_all_complete placements captions (index ∷ roots) s ok =
      let (here, rest) = found_cons (found placements) index roots ok in
      let listed = list_or_empty (lookup index captions) in
      let children = sorted_by_position elements listed in
      let (middle, into, some_all) =
        attach_complete placements (id_at index) children
          (record s { order = s.order ++ index ∷ [] }) here in
      let (next, on, all) = attach_all_complete placements captions roots middle rest in
      (
        next,
        rw (into, attach_all) on,
        λ p. omega (
          arith,
          all p,
          some_all p,
          count-snoc p s.order index,
          count-stable_sort (position_less elements) p listed,
        ),
      )
    where
      found_cons :
          (q : ℕ → Bool) (i : ℕ) (is : List ℕ)
          → count (λ j. not (q j)) (i ∷ is) ≡ 0
          → (q i ≡ true) × (count (λ j. not (q j)) is ≡ 0)
      found_cons q i is h = ground (arith, h)

  parent_once :
      (j : ℕ)
      → count (is_parent (caption_parent elements j)) (root_indices elements)
        ≡ (if is_nothing (caption_parent elements j) then 0 else 1)
  unfolding root_indices
  parent_once j = elim (Option-cases (caption_parent elements j)) [
    | inl t ↦ rw t (nothing (root_indices elements))
    | inr (parent, t) ↦
        let (inside, root) = caption_parent-root elements j parent t in
        rw t (
          count-kept (λ i. is_nothing (caption_parent elements i)) parent (length elements) inside
            (ap is_nothing root))
  ]
    where
      nothing : (is : List ℕ) → count (is_parent none) is ≡ 0
      nothing [] = refl
      nothing (i ∷ is) = nothing is

  -- Of an index of the roots, the id is that of its element; each of them has a placement.
  roots-found :
      (next_band_index : ℕ) (trace : ReadingOrderTrace D)
      → let indices = root_indices elements in
        let roots = map (element_at elements) indices in
        let grouping = predict_group_order roots (bytes "body") next_band_index trace in
        count
          (λ i. not (found (placement_map grouping.trace.placements []) i))
          (map (λ root. get_or indices root 0) grouping.order)
        ≡ 0
  unfolding lookup
  roots-found next_band_index trace =
      let indices = root_indices elements in
      let roots = map (element_at elements) indices in
      let grouping = predict_group_order roots (bytes "body") next_band_index trace in
      let placements = grouping.trace.placements in
      let read : ℕ → ℕ = λ root. get_or indices root 0 in
      let missing : ℕ → Bool = λ i. not (found (placement_map placements []) i) in
      let unplaced : PageElement D → Bool = λ e. not (has e.block.id placements) in
      let in_order = count-predict_group_order roots (bytes "body") in
      omega (
        arith,
        count-map missing read grouping.order,
        in_order (λ r. missing (read r)) next_band_index trace,
        count-map missing read (upto 0 (length roots)),
        ap (λ n. count missing (map read (upto 0 n))) (length-map (element_at elements) indices),
        ap (count missing) (map-get_or indices 0),
        count_same missing (λ i. unplaced (element_at elements i)) indices
            (λ i. ap not (lookup-placement_map (id_at i) placements [] ∙ or_false _)),
        count-map unplaced (element_at elements) indices,
        ap (count unplaced) (map-get_or roots blank_element),
        count-map unplaced (λ r. element_at roots r) (upto 0 (length roots)),
        in_order (λ r. unplaced (element_at roots r)) next_band_index trace,
        predict_group_order-Placed roots (bytes "body") next_band_index trace,
      )
    where
      or_false : (b : Bool) → (b || false) ≡ b
      or_false b = ground arith

      count_same : (q r : ℕ → Bool) (is : List ℕ) → ((i : ℕ) → q i ≡ r i) → count q is ≡ count r is
      count_same q r [] same = refl
      count_same q r (i ∷ is) same = ground (arith, same i, count_same q r is same)

  -- The order of the roots holds each of them once.
  same_roots :
      (next_band_index : ℕ) (trace : ReadingOrderTrace D) (p : ℕ → Bool)
      → let indices = root_indices elements in
        let roots = map (element_at elements) indices in
        count p (
          map
            (λ root. get_or indices root 0)
            (predict_group_order roots (bytes "body") next_band_index trace).order)
        ≡ count p indices
  same_roots next_band_index trace p =
      let indices = root_indices elements in
      let roots = map (element_at elements) indices in
      let read : ℕ → ℕ = λ root. get_or indices root 0 in
      count-map p read _
      ∙ count-predict_group_order roots (bytes "body") (λ r. p (read r)) next_band_index trace
      ∙ ap (λ n. count (λ r. p (read r)) (upto 0 n)) (length-map (element_at elements) indices)
      ∙ sym (count-map p read (upto 0 (length indices)))
      ∙ ap (count p) (map-get_or indices 0)

  -- The roots and their captions are all the blocks.
  sum-weight :
      (p : ℕ → Bool)
      → sum
          (weight p (captions_of (caption_parent elements) (upto 0 (length elements)) []))
          (root_indices elements)
        ≡ count p (upto 0 (length elements))
  unfolding root_indices lookup
  sum-weight p =
      let n = length elements in
      let indices = root_indices elements in
      let parents = caption_parent elements in
      let captions = captions_of parents (upto 0 n) [] in
      sum_same_weights (weight p captions)
        (λ i. count p (i ∷ []) + count p (keep (λ j. is_parent (parents j) i) (upto 0 n))) indices
        (λ i. ap (λ l. count p (i ∷ []) + count p l) (lookup-captions_of parents i (upto 0 n) []))
      ∙ sum_add (λ i. count p (i ∷ []))
          (λ i. count p (keep (λ j. is_parent (parents j) i) (upto 0 n))) indices
      ∙ omega (
        arith,
        sum-count p indices,
        sum-children parents indices parent_once p (upto 0 n),
        count-keep p (λ i. is_nothing (parents i)) (upto 0 n),
      )

  -- The order of the body is found, and holds the index of each of its blocks once.
  pub order_body_complete :
      (next_band_index : ℕ) (trace : ReadingOrderTrace D)
      → (s : BodyOrder D) × (next : ℕ) × (order_body elements next_band_index trace
          ≡ some (s, next))
        × ((p : ℕ → Bool) → count p s.order ≡ count p (upto 0 (length elements)))
  unfolding order_body
  order_body_complete next_band_index trace =
      let n = length elements in
      let indices = root_indices elements in
      let roots = map (element_at elements) indices in
      let grouping = predict_group_order roots (bytes "body") next_band_index trace in
      let read : ℕ → ℕ = λ root. get_or indices root 0 in
      let captions = captions_of (caption_parent elements) (upto 0 n) [] in
      let start : BodyOrder D = record { order = []; trace = grouping.trace } in
      let (s, on, all) =
        attach_all_complete (placement_map grouping.trace.placements []) captions
          (map read grouping.order) start (roots-found next_band_index trace) in
      (
        s,
        grouping.next_band_index,
        rw (on, order_body) refl,
        λ p. omega (
          arith,
          all p,
          sum_same (weight p captions) (map read grouping.order) indices
              (same_roots next_band_index trace),
          sum-weight p,
        ),
      )
