-- ===== src/ReadingOrder/Groups/Consumed.antt =====
-- cpp/reading_order/docling_like_reading_order_backend.cpp: the flags of the blocks that bands have
-- consumed, and lists of distinct indices.
use technical_doc_parser.Prelude.{
  ℕ, zero, suc, ◌+◌, ◌<◌, ◌≤◌, ◌≡◌, refl, sym, ap, ◌∙◌, subst, inl, inr, Text, Bool, true, false,
  ◌&&◌, not, List, [], ◌∷◌, ◌++◌, map, nat_beq, length, count, any, get_or, set, All, arith,
  if◌then◌else◌, Bool-cases,
}
use technical_doc_parser.Prelude.Double.{Double}
use technical_doc_parser.ReadingOrder.Columns.{PageElement, box_at, center_y, upto}
use technical_doc_parser.ReadingOrder.Columns.Infer.{keep}
use technical_doc_parser.ReadingOrder.Topological.Complete.{length-set}
use technical_doc_parser.ReadingOrder.Groups.{take_band}

pub count-append {ℓ} :
    {A : Type ℓ} (p : A → Bool) (xs ys : List A) → count p (xs ++ ys) ≡ count p xs + count p ys
count-append p [] ys = omega arith
count-append p (x ∷ xs) ys = ground (arith, count-append p xs ys)

pub count-map {ℓ κ} :
    {A : Type ℓ} {B : Type κ} (p : B → Bool) (f : A → B) (xs : List A)
    → count p (map f xs) ≡ count (λ x. p (f x)) xs
count-map p f [] = refl
count-map p f (x ∷ xs) = ground (arith, count-map p f xs)

-- What passes and what does not make up the list.
pub count-keep {ℓ} :
    {A : Type ℓ} (p q : A → Bool) (xs : List A)
    → count p (keep q xs) + count p (keep (λ x. not (q x)) xs) ≡ count p xs
count-keep p q [] = omega arith
count-keep p q (x ∷ xs) = ground (arith, count-keep p q xs)

map-upto {ℓ} :
    {A : Type ℓ} (f : ℕ → A) (k n : ℕ) → map f (upto (suc k) n) ≡ map (λ i. f (suc i)) (upto k n)
map-upto f k zero = refl
map-upto f k (suc n) = ap (◌∷◌ (f (suc k))) (map-upto f (suc k) n)

-- Reading a list at all of its indices gives the list.
pub map-get_or {ℓ} :
    {A : Type ℓ} (xs : List A) (v : A) → map (λ i. get_or xs i v) (upto 0 (length xs)) ≡ xs
map-get_or [] v = refl
map-get_or (x ∷ xs) v =
    ap (◌∷◌ x) (map-upto (λ i. get_or (x ∷ xs) i v) 0 (length xs) ∙ map-get_or xs v)

-- The index stands in the list.
abbrev pub occurs : ℕ → List ℕ → Bool
occurs i is = any (λ j. nat_beq i j) is

abbrev pub Distinct : List ℕ → Type 0
Distinct [] = Unit
Distinct (i ∷ is) = (occurs i is ≡ false) × Distinct is

occurs-keep :
    (q : ℕ → Bool) (i : ℕ) (is : List ℕ) → occurs i is ≡ false → occurs i (keep q is) ≡ false
occurs-keep q i [] h = refl
occurs-keep q i (j ∷ is) h = ground (arith, h, occurs-keep q i is)

occurs-upto : (i index n : ℕ) → i < index → occurs i (upto index n) ≡ false
occurs-upto i index zero below = refl
occurs-upto i index (suc n) below =
    ground (arith, below, occurs-upto i (suc index) n (omega (arith, below)))

pub Distinct-keep : (q : ℕ → Bool) (index n : ℕ) → Distinct (keep q (upto index n))
Distinct-keep q index zero = tt
Distinct-keep q index (suc n) = elim (Bool-cases (q index)) [
  | inl t ↦
      rw (t, keep)
        (
          occurs-keep q index (upto (suc index) n) (occurs-upto index (suc index) n (omega arith)),
          Distinct-keep q (suc index) n,
        )
  | inr t ↦ rw (t, keep) (Distinct-keep q (suc index) n)
]

pub All-keep :
    (q : ℕ → Bool) (bound index n : ℕ)
    → index + n ≤ bound
    → All (λ i. i < bound) (keep q (upto index n))
All-keep q bound index zero below = tt
All-keep q bound index (suc n) below = elim (Bool-cases (q index)) [
  | inl t ↦
      rw (t, keep) (omega (arith, below), All-keep q bound (suc index) n (omega (arith, below)))
  | inr t ↦ rw (t, keep) (All-keep q bound (suc index) n (omega (arith, below)))
]

get-set-same :
    (flags : List Bool) (i : ℕ) → i < length flags → get_or (set flags i true) i false ≡ true
get-set-same [] i inside = ground (arith, inside)
get-set-same (f ∷ flags) zero inside = refl
get-set-same (f ∷ flags) (suc i) inside = get-set-same flags i (omega (arith, inside))

get-set-other :
    (flags : List Bool) (i j : ℕ)
    → nat_beq j i ≡ false
    → get_or (set flags i true) j false ≡ get_or flags j false
get-set-other [] i j other = refl
get-set-other (f ∷ flags) zero zero other = cc
get-set-other (f ∷ flags) zero (suc j) other = refl
get-set-other (f ∷ flags) (suc i) zero other = refl
get-set-other (f ∷ flags) (suc i) (suc j) other = get-set-other flags i j (ground (arith, other))

-- The indices of a list that are not consumed.
abbrev pub unconsumed : List Bool → List ℕ → List ℕ
unconsumed consumed remaining = keep (λ index. not (get_or consumed index false)) remaining

occurs_cons :
    (i j : ℕ) (is : List ℕ)
    → occurs i (j ∷ is) ≡ false
    → (nat_beq j i ≡ false) × (occurs i is ≡ false)
occurs_cons i j is fresh = ground (arith, fresh)

pub unconsumed-set :
    (flags : List Bool) (i : ℕ) (is : List ℕ)
    → occurs i is ≡ false
    → unconsumed (set flags i true) is ≡ unconsumed flags is
unconsumed-set flags i [] fresh = refl
unconsumed-set flags i (j ∷ is) fresh =
    let apart = occurs_cons i j is fresh in
    ap
      (λ f.
        if not f then j ∷ unconsumed (set flags i true) is else unconsumed (set flags i true) is)
      (get-set-other flags i j apart.0)
    ∙ ap (λ r. if not (get_or flags j false) then j ∷ r else r) (unconsumed-set flags i is apart.1)

occurs_head : (i j : ℕ) (is : List ℕ) → occurs i (j ∷ is) ≡ false → nat_beq i j ≡ false
occurs_head i j is fresh = ground (arith, fresh)

occurs_tail : (i j : ℕ) (is : List ℕ) → occurs i (j ∷ is) ≡ false → occurs i is ≡ false
occurs_tail i j is fresh = ground (arith, fresh)

not_consumed : (a b : Bool) → (not a && b) ≡ true → a ≡ false
not_consumed a b h = ground (arith, h)

abbrev if_free : Bool → ℕ → ℕ
if_free true n = 0
if_free false n = n

count-one : (p : ℕ → Bool) (i : ℕ) (is : List ℕ) → count p (i ∷ is) ≡ count p (i ∷ []) + count p is
count-one p i is = ground arith

count-unconsumed :
    (p : ℕ → Bool) (flags : List Bool) (i : ℕ) (is : List ℕ) (flag : Bool)
    → get_or flags i false ≡ flag
    → count p (unconsumed flags (i ∷ is))
      ≡ if_free flag (count p (i ∷ [])) + count p (unconsumed flags is)
count-unconsumed p flags i is true h = rw (h, keep) (omega arith)
count-unconsumed p flags i is false h = rw (h, keep) (count-one p i (unconsumed flags is))

module _ {ℓ} {D : Type ℓ} ⦃d : Double D⦄ (elements : List (PageElement D)) (group : Text) where
  -- The flags that a band leaves are the old ones outside the list, and each index of the list that was
  -- not consumed is in the band or still not consumed.
  abbrev pub Takes : List ℕ → List Bool → List ℕ × List Bool → Type 0
  Takes remaining consumed (band, flags) =
      (length flags ≡ length consumed)
      × ((j : ℕ) → occurs j remaining ≡ false → get_or flags j false ≡ get_or consumed j false)
      × ((p : ℕ → Bool)
          → count p band + count p (unconsumed flags remaining)
            ≡ count p (unconsumed consumed remaining))

  Takes-taken :
      (index : ℕ) (remaining band : List ℕ) (consumed flags : List Bool)
      → occurs index remaining ≡ false
      → index < length consumed
      → get_or consumed index false ≡ false
      → Takes remaining (set consumed index true) (band, flags)
      → Takes (index ∷ remaining) consumed (index ∷ band, flags)
  Takes-taken index remaining band consumed flags fresh here free (size, other, all) = (
    size ∙ length-set consumed index true,
    λ j h.
        other j (occurs_tail j index remaining h)
        ∙ get-set-other consumed index j (occurs_head j index remaining h),
    λ p. omega (
      arith,
      all p,
      ap (count p) (unconsumed-set consumed index remaining fresh),
      count-unconsumed p flags index remaining true
          (other index fresh ∙ get-set-same consumed index here),
      count-unconsumed p consumed index remaining false free,
      count-one p index band,
    ),
  )

  Takes-skipped :
      (index : ℕ) (remaining band : List ℕ) (consumed flags : List Bool)
      → occurs index remaining ≡ false
      → Takes remaining consumed (band, flags)
      → Takes (index ∷ remaining) consumed (band, flags)
  Takes-skipped index remaining band consumed flags fresh (size, other, all) = (
    size,
    λ j h. other j (occurs_tail j index remaining h),
    λ p. omega (
      arith,
      all p,
      count-unconsumed p flags index remaining (get_or consumed index false) (other index fresh),
      count-unconsumed p consumed index remaining (get_or consumed index false) refl,
    ),
  )

  abbrev taken_by : D → ℕ → List Bool → Bool
  taken_by y index consumed =
      not (get_or consumed index false) && d.lt (center_y (box_at elements index)) y

  take_band-taken :
      (y : D) (index : ℕ) (remaining : List ℕ) (consumed : List Bool)
      → taken_by y index consumed ≡ true
      → let rest = take_band elements group y remaining (set consumed index true) in
        take_band elements group y (index ∷ remaining) consumed ≡ (index ∷ rest.0, rest.1)
  unfolding take_band
  take_band-taken y index remaining consumed t = rw (t, take_band) refl

  take_band-skipped :
      (y : D) (index : ℕ) (remaining : List ℕ) (consumed : List Bool)
      → taken_by y index consumed ≡ false
      → let rest = take_band elements group y remaining consumed in
        take_band elements group y (index ∷ remaining) consumed ≡ (rest.0, rest.1)
  unfolding take_band
  take_band-skipped y index remaining consumed t = rw (t, take_band) refl

  pub take_band-Takes :
      (y : D) (remaining : List ℕ) (consumed : List Bool)
      → Distinct remaining
      → All (λ i. i < length consumed) remaining
      → Takes remaining consumed (take_band elements group y remaining consumed)
  unfolding take_band
  take_band-Takes y [] consumed distinct inside = (refl, λ j h. refl, λ p. omega arith)
  take_band-Takes y (index ∷ remaining) consumed (fresh, distinct) (here, inside) =
      elim (Bool-cases (taken_by y index consumed)) [
        | inl t ↦
            let marked = set consumed index true in
            let still =
              subst (λ n. All (λ i. i < n) remaining) (sym (length-set consumed index true))
                inside in
            let (band, flags) = take_band elements group y remaining marked in
            subst (Takes (index ∷ remaining) consumed)
              (sym (take_band-taken y index remaining consumed t))
              (Takes-taken index remaining band consumed flags fresh here (not_consumed _ _ t)
                (take_band-Takes y remaining marked distinct still))
        | inr t ↦
            let (band, flags) = take_band elements group y remaining consumed in
            subst (Takes (index ∷ remaining) consumed)
              (sym (take_band-skipped y index remaining consumed t))
              (Takes-skipped index remaining band consumed flags fresh
                (take_band-Takes y remaining consumed distinct inside))
      ]
