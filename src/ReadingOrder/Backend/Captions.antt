-- ===== src/ReadingOrder/Backend/Captions.antt =====
-- cpp/reading_order/docling_like_reading_order_backend.cpp: each caption stands behind one block, which is
-- no caption.
use technical_doc_parser.Prelude.{
  ℕ, zero, suc, ◌+◌, ◌≤◌, ◌<◌, ◌≡◌, refl, sym, ap, ◌∙◌, subst, inl, inr, Bool, true, false, Option,
  none, some, List, [], ◌∷◌, ◌++◌, Text, text_eq, nat_eq, nat_beq, nat_beq_iff, ltb, length, count,
  arith, if◌then◌else◌, Bool-cases, Option-cases,
}
use mathlib.Core.Option.{some-injective}
use technical_doc_parser.Document.Layout.{LayoutBlockType}
use mathlib.Core.List.{append_assoc, append-nil}
use technical_doc_parser.Prelude.Dict.{
  lookup, lookup-insert, AllValues, AllValues-lookup, AllValues-emplace,
}
use technical_doc_parser.Prelude.Double.{Double}
use technical_doc_parser.ReadingOrder.Columns.{PageElement, element_at}
use technical_doc_parser.ReadingOrder.Columns.Infer.{keep}
use technical_doc_parser.ReadingOrder.Backend.{
  is_text, is_visual, list_or_empty, is_caption, ids_from, caption_parent, add_caption, captions_of,
}

abbrev pub sum : (ℕ → ℕ) → List ℕ → ℕ
sum w [] = 0
sum w (i ∷ is) = w i + sum w is

-- The weight of an index up to a bound.
abbrev capped : (ℕ → ℕ) → ℕ → ℕ → ℕ
capped w bound i = if ltb (w i) bound then w i else bound

sum-capped :
    (w : ℕ → ℕ) (bound : ℕ) (is : List ℕ)
    → sum (capped w (suc bound)) is ≡ sum (capped w bound) is + count (λ i. ltb bound (w i)) is
sum-capped w bound [] = omega arith
sum-capped w bound (i ∷ is) = ground (arith, sum-capped w bound is)

sum-capped_zero : (w : ℕ → ℕ) (is : List ℕ) → sum (capped w 0) is ≡ 0
sum-capped_zero w [] = refl
sum-capped_zero w (i ∷ is) = ground (arith, sum-capped_zero w is)

sum-capped_all :
    (w : ℕ → ℕ) (bound : ℕ) (is : List ℕ) → sum w is < bound → sum (capped w bound) is ≡ sum w is
sum-capped_all w bound [] below = refl
sum-capped_all w bound (i ∷ is) below =
    ground (arith, below, sum-capped_all w bound is (omega (arith, below)))

sum-capped_same :
    (w : ℕ → ℕ) (is js : List ℕ) (bound : ℕ)
    → ((p : ℕ → Bool) → count p is ≡ count p js)
    → sum (capped w bound) is ≡ sum (capped w bound) js
sum-capped_same w is js zero same = omega (arith, sum-capped_zero w is, sum-capped_zero w js)
sum-capped_same w is js (suc bound) same = omega (
  arith,
  sum-capped_same w is js bound same,
  sum-capped w bound is,
  sum-capped w bound js,
  same (λ i. ltb bound (w i)),
)

-- Lists with the same entries have the same sums.
pub sum_same :
    (w : ℕ → ℕ) (is js : List ℕ) → ((p : ℕ → Bool) → count p is ≡ count p js) → sum w is ≡ sum w js
sum_same w is js same =
    let bound = sum w is + sum w js + 1 in
    omega (
      arith,
      sum-capped_same w is js bound same,
      sum-capped_all w bound is (omega arith),
      sum-capped_all w bound js (omega arith),
    )

abbrev pub is_parent : Option ℕ → ℕ → Bool
is_parent none i = false
is_parent (some target) i = nat_beq target i

add_caption_lem :
    (target index : ℕ) (parent : Option ℕ) (captions : List (ℕ × List ℕ))
    → list_or_empty (lookup target (add_caption parent index captions))
      ≡ list_or_empty (lookup target captions)
        ++ (if is_parent parent target then index ∷ [] else [])
unfolding add_caption
add_caption_lem target index none captions = sym (append-nil _)
add_caption_lem target index (some t) captions =
    let old = list_or_empty (lookup t captions) in
    ap list_or_empty (lookup-insert t target (old ++ index ∷ []) captions)
    ∙ elim (Bool-cases (nat_beq t target)) [
      | inl same ↦ rw same (
          ap (λ u. list_or_empty (lookup u captions) ++ index ∷ []) ((nat_beq_iff t target).0 same))
      | inr other ↦ rw other (sym (append-nil _))
    ]

no_some : {n : ℕ} → none ≡ some n → ⊥
no_some h = cc

-- The captions of a block, in the order of the elements.
pub lookup-captions_of :
    (parents : ℕ → Option ℕ) (target : ℕ) (is : List ℕ) (captions : List (ℕ × List ℕ))
    → list_or_empty (lookup target (captions_of parents is captions))
      ≡ list_or_empty (lookup target captions) ++ keep (λ i. is_parent (parents i) target) is
unfolding captions_of
lookup-captions_of parents target [] captions = sym (append-nil _)
lookup-captions_of parents target (i ∷ is) captions =
    let rest = keep (λ j. is_parent (parents j) target) is in
    lookup-captions_of parents target is (add_caption (parents i) i captions)
    ∙ ap (λ l. l ++ rest) (add_caption_lem target i (parents i) captions)
    ∙ append_assoc (list_or_empty (lookup target captions)) _ rest
    ∙ ap (λ l. list_or_empty (lookup target captions) ++ l)
        (cons_if (is_parent (parents i) target) i rest)
  where
    cons_if :
        (b : Bool) (i : ℕ) (rest : List ℕ)
        → (if b then i ∷ [] else []) ++ rest ≡ (if b then i ∷ rest else rest)
    cons_if true i rest = refl
    cons_if false i rest = refl

module _ {ℓ} {D : Type ℓ} ⦃d : Double D⦄ (elements : List (PageElement D)) where
  ids_from-inside :
      (bound index : ℕ) (rest : List (PageElement D)) (by_id : List (Text × ℕ))
      → index + length rest ≤ bound
      → AllValues (λ i. i < bound) by_id
      → AllValues (λ i. i < bound) (ids_from index rest by_id)
  unfolding ids_from
  ids_from-inside bound index [] by_id below all = all
  ids_from-inside bound index (e ∷ rest) by_id below all =
      ids_from-inside bound (suc index) rest _ (omega (arith, below))
        (AllValues-emplace (λ i. i < bound) e.block.id index by_id all (omega (arith, below)))

  visual_text : (t : LayoutBlockType) → is_visual t ≡ true → is_text t ≡ false
  visual_text LayoutBlockType.figure h = refl
  visual_text LayoutBlockType.table h = refl
  visual_text LayoutBlockType.text h = sym h
  visual_text LayoutBlockType.unknown h = refl
  visual_text LayoutBlockType.title h = refl
  visual_text LayoutBlockType.list h = refl
  visual_text LayoutBlockType.header h = refl
  visual_text LayoutBlockType.footer h = refl

  visual_root :
      (t : ℕ)
      → is_visual (element_at elements t).block.block_type ≡ true
      → caption_parent elements t ≡ none
  unfolding caption_parent is_caption
  visual_root t h = rw (visual_text _ h, caption_parent, is_caption) refl

  -- A block that has captions is among the elements and is no caption itself.
  pub caption_parent-root :
      (i parent : ℕ)
      → caption_parent elements i ≡ some parent
      → (parent < length elements) × (caption_parent elements parent ≡ none)
  unfolding caption_parent is_caption
  caption_parent-root i parent h =
      let block = (element_at elements i).block in
      elim (Bool-cases (is_caption block)) [
        | inr u ↦ absurd (no_some (rw (u, caption_parent) at h))
        | inl u ↦ elim (Option-cases (lookup block.related_block_id (ids_from 0 elements []))) [
          | inl l ↦ absurd (no_some (rw (u, l, caption_parent) at h))
          | inr (target, l) ↦ elim (Bool-cases (nat_beq target i)) [
            | inl v ↦ absurd (no_some (rw (u, l, v, caption_parent) at h))
            | inr v ↦ elim (Bool-cases (is_visual (element_at elements target).block.block_type)) [
              | inr w ↦ absurd (no_some (rw (u, l, v, w, caption_parent) at h))
              | inl w ↦
                  let same = some-injective _ _ (rw (u, l, v, w, caption_parent) at h) in
                  (
                    subst (λ t. t < length elements) same
                        (AllValues-lookup (λ t. t < length elements) block.related_block_id target
                          (ids_from 0 elements [])
                          (ids_from-inside (length elements) 0 elements [] (omega arith) tt) l),
                    subst (λ t. caption_parent elements t ≡ none) same (visual_root target w),
                  )
            ]
          ]
        ]
      ]
