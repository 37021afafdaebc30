-- ===== src/ReadingOrder/Topological/Flags.antt =====
-- cpp/reading_order/docling_like_reading_order_backend.cpp: the flags of the blocks that are emitted, and what is picked of those that are not.
use technical_doc_parser.Prelude.{
  ℕ, zero, suc, ◌+◌, ◌<◌, ◌≡◌, refl, ap, subst, ◌⊎◌, inl, inr, Bool, true, false, ◌&&◌, Option,
  none, some, List, [], ◌∷◌, length, count, get_or, set, replicate, arith, Bool-cases,
}
use mathlib.Core.Option.{some-injective}
use technical_doc_parser.ReadingOrder.Columns.{upto}
use technical_doc_parser.ReadingOrder.Graph.{pick}

abbrev is_some : Option ℕ → Bool
is_some none = false
is_some (some i) = true

add_nought : (n : ℕ) → n + 0 ≡ n
add_nought n = omega arith

add_suc : (n i : ℕ) → n + suc i ≡ suc n + i
add_suc n i = omega arith

and_left : (a b : Bool) → (a && b) ≡ true → a ≡ true
and_left a b h = ground (arith, h)

-- The indices, from `index` on, whose flags are not set.
abbrev pub left : ℕ → List Bool → List ℕ
left index [] = []
left index (true ∷ flags) = left (suc index) flags
left index (false ∷ flags) = index ∷ left (suc index) flags

pub left-replicate : (index n : ℕ) → left index (replicate n false) ≡ upto index n
left-replicate index zero = refl
left-replicate index (suc n) = ap (◌∷◌ index) (left-replicate (suc index) n)

abbrev pub bit : Bool → ℕ
bit true = 1
bit false = 0

pub count-cons : (p : ℕ → Bool) (i : ℕ) (is : List ℕ) → bit (p i) + count p is ≡ count p (i ∷ is)
count-cons p i is = ground arith

-- An index that is set is left no more.
pub count-left :
    (p : ℕ → Bool) (index i : ℕ) (flags : List Bool)
    → i < length flags
    → get_or flags i false ≡ false
    → bit (p (index + i)) + count p (left index (set flags i true)) ≡ count p (left index flags)
count-left p index i [] inside clear = ground (arith, inside)
count-left p index zero (true ∷ flags) inside clear = ground (arith, clear)
count-left p index zero (false ∷ flags) inside clear =
    rw (add_nought index) (count-cons p index (left (suc index) flags))
count-left p index (suc i) (true ∷ flags) inside clear =
    rw (add_suc index i) (count-left p (suc index) i flags (omega (arith, inside)) clear)
count-left p index (suc i) (false ∷ flags) inside clear =
    let step = count-left p (suc index) i flags (omega (arith, inside)) clear in
    rw (add_suc index i) (
      omega (
        arith,
        step,
        count-cons p index (left (suc index) (set flags i true)),
        count-cons p index (left (suc index) flags),
      ))

pub clear-left :
    (index : ℕ) (flags : List Bool)
    → ((j : ℕ) → j < length flags → get_or flags j false ≡ true)
    → length (left index flags) ≡ 0
clear-left index [] set_all = refl
clear-left index (true ∷ flags) set_all =
    clear-left (suc index) flags (λ j inside. set_all (suc j) (omega (arith, inside)))
clear-left index (false ∷ flags) set_all = ground (arith, set_all 0 (omega arith))

-- What is picked passes, and is in the range; if nothing is, nothing there passes.
pub pick-some :
    (passes : ℕ → Bool) (less : ℕ → ℕ → Bool) (best : Option ℕ) (index n i : ℕ)
    → pick passes less best index n ≡ some i
    → (best ≡ some i) ⊎ ((passes i ≡ true) × (i < index + n))
unfolding pick
pick-some passes less best index zero i h = inl h
pick-some passes less best index (suc n) i h =
    let better : Bool = passes index && elim best [ none ↦ true | some b ↦ less index b ] in
    elim (Bool-cases better) [
      | inl t ↦ elim (pick-some passes less (some index) (suc index) n i (rw (t, pick) at h)) [
        | inl same ↦
            let here = some-injective _ _ same in
            inr (subst (λ k. passes k ≡ true) here (and_left _ _ t), omega (arith, here))
        | inr (ok, inside) ↦ inr (ok, omega (arith, inside))
      ]
      | inr t ↦ elim (pick-some passes less best (suc index) n i (rw (t, pick) at h)) [
        | inl same ↦ inl same
        | inr (ok, inside) ↦ inr (ok, omega (arith, inside))
      ]
    ]

picked :
    (passes : ℕ → Bool) (less : ℕ → ℕ → Bool) (b index n : ℕ)
    → is_some (pick passes less (some b) index n) ≡ true
unfolding pick
picked passes less b index zero = refl
picked passes less b index (suc n) = elim (Bool-cases (passes index && less index b)) [
  | inl t ↦ rw (t, pick) (picked passes less index (suc index) n)
  | inr t ↦ rw (t, pick) (picked passes less b (suc index) n)
]

pub pick-none :
    (passes : ℕ → Bool) (less : ℕ → ℕ → Bool) (index n : ℕ)
    → pick passes less none index n ≡ none
    → (j : ℕ) → j < n
    → passes (index + j) ≡ false
unfolding pick
pick-none passes less index zero h j inside = ground (arith, inside)
pick-none passes less index (suc n) h j inside = elim (Bool-cases (passes index)) [
  | inl t ↦ absurd (rw (t, pick) at h) (picked passes less index (suc index) n)
  | inr t ↦ next j inside t (pick-none passes less (suc index) n (rw (t, pick) at h))
]
  where
    absurd : {o : Option ℕ} → o ≡ none → is_some o ≡ true → passes (index + j) ≡ false
    absurd h k = cc

    next :
        (j : ℕ)
        → j < suc n
        → passes index ≡ false
        → ((k : ℕ) → k < n → passes (suc index + k) ≡ false)
        → passes (index + j) ≡ false
    next zero inside t rest = rw (add_nought index) t
    next (suc k) inside t rest = rw (add_suc index k) (rest k (omega (arith, inside)))
