-- ===== src/ReadingOrder/Backend/Sums.antt =====
-- cpp/reading_order/docling_like_reading_order_backend.cpp: sums over blocks and over those that stand
-- behind them.
use technical_doc_parser.Prelude.{
  ℕ, zero, suc, ◌+◌, ◌≤◌, ◌<◌, ◌≡◌, refl, ap, ◌∙◌, inl, inr, Bool, true, false, not, Option, List,
  [], ◌∷◌, text_eq, nat_eq, nat_beq, nat_beq_iff, count, arith, if◌then◌else◌, Bool-cases,
}
use technical_doc_parser.ReadingOrder.Columns.{upto}
use technical_doc_parser.ReadingOrder.Columns.Infer.{keep}
use technical_doc_parser.ReadingOrder.Groups.Consumed.{count-keep}
use technical_doc_parser.ReadingOrder.Backend.{is_nothing}
use technical_doc_parser.ReadingOrder.Backend.Captions.{sum, is_parent}

pub count-one :
    (p : ℕ → Bool) (i : ℕ) (is : List ℕ) → count p (i ∷ is) ≡ count p (i ∷ []) + count p is
count-one p i is = ground arith

count-upto_before : (t k n : ℕ) → t < k → count (nat_beq t) (upto k n) ≡ 0
count-upto_before t k zero below = refl
count-upto_before t k (suc n) below =
    ground (arith, below, count-upto_before t (suc k) n (omega (arith, below)))

count-upto : (t k n : ℕ) → k ≤ t → t < k + n → count (nat_beq t) (upto k n) ≡ 1
count-upto t k zero low high = absurd (omega (arith, low, high))
count-upto t k (suc n) low high = elim (Bool-cases (nat_beq t k)) [
  | inl same ↦ rw (same, count) (ap suc (count-upto_before t (suc k) n (ground (arith, same))))
  | inr other ↦
      rw (other, count) (count-upto t (suc k) n (ground (arith, low, other)) (omega (arith, high)))
]

count-not_kept :
    (r : ℕ → Bool) (t : ℕ) (is : List ℕ) → r t ≡ false → count (nat_beq t) (keep r is) ≡ 0
count-not_kept r t [] h = refl
count-not_kept r t (i ∷ is) h = elim (Bool-cases (r i)) [
  | inr u ↦ rw (u, keep) (count-not_kept r t is h)
  | inl u ↦ elim (Bool-cases (nat_beq t i)) [
    | inl same ↦ cc (ap r ((nat_beq_iff t i).0 same), h, u)
    | inr other ↦ rw (u, keep) (rw (other, count) (count-not_kept r t is h))
  ]
]

-- A block stands once among those that it is kept with.
pub count-kept :
    (r : ℕ → Bool) (t n : ℕ) → t < n → r t ≡ true → count (nat_beq t) (keep r (upto 0 n)) ≡ 1
count-kept r t n below h = omega (
  arith,
  count-keep (nat_beq t) r (upto 0 n),
  count-not_kept (λ i. not (r i)) t (upto 0 n) (ground (arith, h)),
  count-upto t 0 n (omega arith) (omega (arith, below)),
)

pub sum_add : (v w : ℕ → ℕ) (is : List ℕ) → sum (λ i. v i + w i) is ≡ sum v is + sum w is
sum_add v w [] = omega arith
sum_add v w (i ∷ is) = omega (arith, sum_add v w is)

pub sum-count : (p : ℕ → Bool) (is : List ℕ) → sum (λ i. count p (i ∷ [])) is ≡ count p is
sum-count p [] = refl
sum-count p (i ∷ is) = omega (arith, sum-count p is, count-one p i is)

pub sum_same_weights : (v w : ℕ → ℕ) (is : List ℕ) → ((i : ℕ) → v i ≡ w i) → sum v is ≡ sum w is
sum_same_weights v w [] same = refl
sum_same_weights v w (i ∷ is) same = omega (arith, same i, sum_same_weights v w is same)

abbrev times : ℕ → ℕ → ℕ
times zero c = 0
times (suc n) c = c + times n c

sum-if :
    (q : ℕ → Bool) (c : ℕ) (is : List ℕ) → sum (λ i. if q i then c else 0) is ≡ times (count q is) c
sum-if q c [] = refl
sum-if q c (i ∷ is) = elim (Bool-cases (q i)) [
  | inl t ↦ rw (t, sum, count) (ap (λ n. c + n) (sum-if q c is))
  | inr t ↦ rw (t, sum, count) (omega (arith, sum-if q c is))
]

count-keep_cons :
    (p q : ℕ → Bool) (j : ℕ) (js : List ℕ)
    → count p (keep q (j ∷ js)) ≡ (if q j then count p (j ∷ []) else 0) + count p (keep q js)
count-keep_cons p q j js = ground arith

-- The captions of all the roots are the blocks that are no roots.
module _ (parents : ℕ → Option ℕ) (roots : List ℕ)
    (once : (j : ℕ)
      → count (is_parent (parents j)) roots ≡ (if is_nothing (parents j) then 0 else 1)) where
  pub sum-children :
      (p : ℕ → Bool) (js : List ℕ)
      → sum (λ i. count p (keep (λ j. is_parent (parents j) i) js)) roots
        ≡ count p (keep (λ j. not (is_nothing (parents j))) js)
  sum-children p [] = zeros roots
    where
      zeros : (is : List ℕ) → sum (λ i. 0) is ≡ 0
      zeros [] = refl
      zeros (i ∷ is) = omega (arith, zeros is)
  sum-children p (j ∷ js) =
      let c = count p (j ∷ []) in
      sum_same_weights _
        (λ i.
          (if is_parent (parents j) i then c else 0)
          + count p (keep (λ k. is_parent (parents k) i) js))
        roots (λ i. count-keep_cons p (λ k. is_parent (parents k) i) j js)
      ∙ sum_add (λ i. if is_parent (parents j) i then c else 0)
          (λ i. count p (keep (λ k. is_parent (parents k) i) js)) roots
      ∙ add_children (sum-if (is_parent (parents j)) c roots) (sum-children p js) (once j)
    where
      add_children :
          {s t k : ℕ}
          → s ≡ times k (count p (j ∷ []))
          → t ≡ count p (keep (λ i. not (is_nothing (parents i))) js)
          → k ≡ (if is_nothing (parents j) then 0 else 1)
          → s + t ≡ count p (keep (λ i. not (is_nothing (parents i))) (j ∷ js))
      add_children hs ht hk = elim (Bool-cases (is_nothing (parents j))) [
        | inl u ↦
            rw (u, keep) (omega (arith, hs ∙ ap (λ m. times m (count p (j ∷ []))) (rw u at hk), ht))
        | inr u ↦
            rw (u, keep)
              (omega (
                arith,
                hs ∙ ap (λ m. times m (count p (j ∷ []))) (rw u at hk),
                ht,
                count-one p j (keep (λ i. not (is_nothing (parents i))) js),
              ))
      ]
