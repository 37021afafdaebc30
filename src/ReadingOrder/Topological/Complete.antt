-- ===== src/ReadingOrder/Topological/Complete.antt =====
-- cpp/reading_order/docling_like_reading_order_backend.cpp: the topological order holds each block once.
use technical_doc_parser.Prelude.{
  ℕ, zero, suc, ◌+◌, ◌≤◌, ◌<◌, ◌≡◌, refl, sym, ap, ◌∙◌, subst, inl, inr, Bool, true, false, not,
  Option, none, some, List, [], ◌∷◌, ◌++◌, leb, leb→le, length, count, get_or, set, All,
  length-replicate, arith, Bool-cases, Option-cases,
}
use mathlib.Core.Option.{some-injective}
use technical_doc_parser.Prelude.Double.{Double}
use technical_doc_parser.Document.Layout.{ReadingOrderCycleBreak}
use technical_doc_parser.ReadingOrder.Columns.{upto, PageElement, ColumnRange}
use technical_doc_parser.ReadingOrder.Graph.{WeightedEdge, edge_at, pick, comes_before}
use technical_doc_parser.ReadingOrder.Graph.Cycles.{find_cycle_edges}
use technical_doc_parser.ReadingOrder.Topological.{
  Progress, weakest_edge, weaker, emit, break_edge, ready, pending, pass, topological_loop,
  start_order, stable_topological_order,
}
use technical_doc_parser.ReadingOrder.Topological.Active.{Active, find_cycle_edges-Active}
use technical_doc_parser.ReadingOrder.Topological.Flags.{
  left, bit, left-replicate, count-cons, count-left, clear-left, pick-some, pick-none,
}

pub count-snoc {ℓ} :
    {A : Type ℓ} (p : A → Bool) (xs : List A) (x : A)
    → count p (xs ++ x ∷ []) ≡ count p xs + count p (x ∷ [])
count-snoc p [] x = omega arith
count-snoc p (y ∷ xs) x = ground (arith, count-snoc p xs x)

pub length-set {ℓ} : {A : Type ℓ} (xs : List A) (i : ℕ) (v : A) → length (set xs i v) ≡ length xs
length-set [] i v = refl
length-set (x ∷ xs) zero v = refl
length-set (x ∷ xs) (suc i) v = ap suc (length-set xs i v)

count-true {ℓ} : {A : Type ℓ} (xs : List A) → count (λ _. true) xs ≡ length xs
count-true [] = refl
count-true (x ∷ xs) = ap suc (count-true xs)

count-empty {ℓ} : {A : Type ℓ} (p : A → Bool) (xs : List A) → length xs ≡ 0 → count p xs ≡ 0
count-empty p [] empty = refl
count-empty p (x ∷ xs) empty = ground (arith, empty)

count-bounded {ℓ} : {A : Type ℓ} (p : A → Bool) (xs : List A) → count p xs ≤ length xs
count-bounded p [] = omega arith
count-bounded p (x ∷ xs) = ground (arith, count-bounded p xs)

length-upto : (index n : ℕ) → length (upto index n) ≡ n
length-upto index zero = refl
length-upto index (suc n) = ap suc (length-upto (suc index) n)

zero_add : (n : ℕ) → 0 + n ≡ n
zero_add n = omega arith

module _ {ℓ} {D : Type ℓ} ⦃d : Double D⦄ where
  abbrev actives : List (WeightedEdge D) → ℕ
  actives edges = count (λ e. e.active) edges

  -- What the loop still has to do.
  abbrev remaining : Progress D → ℕ
  remaining s = length (left 0 s.emitted) + actives s.edges

  -- Of `n` blocks, each is either in the order or not emitted, once.
  abbrev IsPartial : ℕ → Progress D → Type 0
  IsPartial n s =
      (length s.emitted ≡ n)
      × ((p : ℕ → Bool) → count p s.order + count p (left 0 s.emitted) ≡ count p (upto 0 n))

  emit-IsPartial :
      (n next : ℕ) (s : Progress D)
      → next < n
      → get_or s.emitted next false ≡ false
      → IsPartial n s
      → IsPartial n (emit next s) × (remaining (emit next s) + 1 ≡ remaining s)
  unfolding emit
  emit-IsPartial n next s inside clear (size, all) =
      let inside' = subst (λ m. next < m) (sym size) inside in
      let step : (p : ℕ → Bool)
          → bit (p next) + count p (left 0 (set s.emitted next true)) ≡ count p (left 0 s.emitted) =
        λ p.
          subst
            (λ k.
              bit (p k) + count p (left 0 (set s.emitted next true)) ≡ count p (left 0 s.emitted))
            (zero_add next) (count-left p 0 next s.emitted inside' clear) in
      (
        (
          length-set s.emitted next true ∙ size,
          λ p. omega (arith, all p, step p, count-snoc p s.order next, count-cons p next []),
        ),
        omega (
          arith,
          step (λ _. true),
          count-true (left 0 s.emitted),
          count-true (left 0 (set s.emitted next true)),
        ),
      )

  actives-break :
      (edges : List (WeightedEdge D)) (emitted : List Bool) (index : ℕ)
      → Active edges emitted index
      → actives (set edges index (record (edge_at edges index) { active = false })) + 1
        ≡ actives edges
  actives-break [] emitted index active = cc
  actives-break (edge ∷ edges) emitted zero active = ground (arith, active)
  actives-break (edge ∷ edges) emitted (suc index) active =
      ground (arith, actives-break edges emitted index active)

  weakest_edge-Active :
      (edges : List (WeightedEdge D)) (emitted : List Bool) (weakest : Option ℕ) (indices : List ℕ)
      → (found : ℕ) → ((w : ℕ) → weakest ≡ some w → Active edges emitted w)
      → All (Active edges emitted) indices
      → weakest_edge edges weakest indices ≡ some found
      → Active edges emitted found
  unfolding weakest_edge
  weakest_edge-Active edges emitted weakest [] found ok all h = ok found h
  weakest_edge-Active edges emitted none (index ∷ indices) found ok (here, all) h =
      weakest_edge-Active edges emitted (some index) indices found
        (λ w same. subst (Active edges emitted) (some-injective _ _ same) here) all h
  weakest_edge-Active edges emitted (some w) (index ∷ indices) found ok (here, all) h =
      elim (Bool-cases (weaker (edge_at edges index) (edge_at edges w))) [
        | inl t ↦
            weakest_edge-Active edges emitted (some index) indices found
              (λ w same. subst (Active edges emitted) (some-injective _ _ same) here) all
              (rw (t, weakest_edge) at h)
        | inr t ↦
            weakest_edge-Active edges emitted (some w) indices found ok all
              (rw (t, weakest_edge) at h)
      ]

  module _ (elements : List (PageElement D)) (ranges : List ColumnRange) (column_count : ℕ) where
    picked_pending :
        (s : Progress D) (next : ℕ)
        → pick
            (pending elements ranges column_count s)
            (comes_before elements ranges column_count)
            none
            0
            (length elements)
          ≡ some next
        → (next < length elements) × (get_or s.emitted next false ≡ false)
    unfolding pending
    picked_pending s next h = elim (pick-some _ _ none 0 (length elements) next h) [
      | inl same ↦ cc
      | inr (passes, inside) ↦ (omega (arith, inside), ground (arith, passes))
    ]

    nothing_pending :
        (s : Progress D)
        → length s.emitted ≡ length elements
        → pick
            (pending elements ranges column_count s)
            (comes_before elements ranges column_count)
            none
            0
            (length elements)
          ≡ none
        → length (left 0 s.emitted) ≡ 0
    unfolding pending
    nothing_pending s size h = clear-left 0 s.emitted (λ j inside.
        let passes = pick-none _ _ 0 (length elements) h j (omega (arith, inside, size)) in
        let flag = subst (λ k. not (get_or s.emitted k false) ≡ false) (zero_add j) passes in
        ground (arith, flag))

    picked_ready :
        (s : Progress D) (next : ℕ)
        → pick
            (ready elements ranges column_count s)
            (comes_before elements ranges column_count)
            none
            0
            (length elements)
          ≡ some next
        → (next < length elements) × (get_or s.emitted next false ≡ false)
    unfolding ready
    picked_ready s next h = elim (pick-some _ _ none 0 (length elements) next h) [
      | inl same ↦ cc
      | inr (passes, inside) ↦ (omega (arith, inside), ground (arith, passes))
    ]

    ap2 : {a b c a' b' c' n : ℕ} → a + b ≡ c → a ≡ a' → b ≡ b' → c ≡ c' → c' ≡ n → a' + b' ≡ n
    ap2 h ha hb hc hn = omega (arith, h, ha, hb, hc, hn)

    -- A pass with blocks left goes on, and leaves less to do.
    pass-IsPartial :
        (s : Progress D)
        → IsPartial (length elements) s
        → 0 < length (left 0 s.emitted)
        → (next : Progress D) × (pass elements ranges column_count s ≡ some next)
          × IsPartial (length elements) next
          × (remaining next + 1 ≡ remaining s)
    unfolding pass
    pass-IsPartial s (size, all) some_left =
        let less = comes_before elements ranges column_count in
        let n = length elements in
        elim (Option-cases (pick (ready elements ranges column_count s) less none 0 n)) [
          | inr (next, t) ↦
              let (inside, clear) = picked_ready s next t in
              let (ok, smaller) = emit-IsPartial n next s inside clear (size, all) in
              (emit next s, rw (t, pass) refl, ok, smaller)
          | inl t ↦
              elim (Option-cases (weakest_edge s.edges none (find_cycle_edges s.edges s.emitted))) [
                | inr (index, u) ↦
                    let active =
                      weakest_edge-Active s.edges s.emitted none
                        (find_cycle_edges s.edges s.emitted) index (λ w h. ground (arith, h))
                        (find_cycle_edges-Active s.edges s.emitted) u in
                    (
                      break_edge elements index s,
                      rw (t, u, pass) refl,
                      (size, all),
                      omega (arith, actives-break s.edges s.emitted index active),
                    )
                | inl u ↦
                    elim (Option-cases
                      (pick (pending elements ranges column_count s) less none 0 n)) [
                        | inr (next, v) ↦
                            let (inside, clear) = picked_pending s next v in
                            let (ok, smaller) = emit-IsPartial n next s inside clear (size, all) in
                            (emit next s, rw (t, u, v, pass) refl, ok, smaller)
                        | inl v ↦
                            let empty = nothing_pending s size v in
                            absurd (omega (arith, empty, some_left))
                      ]
              ]
        ]

    topological_loop_complete :
        (fuel : ℕ) (s : Progress D)
        → remaining s ≤ fuel
        → IsPartial (length elements) s
        → (p : ℕ → Bool)
        → count p (topological_loop elements ranges column_count fuel s).order
          ≡ count p (upto 0 (length elements))
    unfolding topological_loop
    topological_loop_complete zero s enough (size, all) p =
        omega (arith, enough, all p, count-empty p (left 0 s.emitted) (omega (arith, enough)))
    topological_loop_complete (suc fuel) s enough (size, all) p =
        let n = length elements in
        let total =
          ap2 (all (λ _. true)) (count-true s.order) (count-true (left 0 s.emitted))
            (count-true (upto 0 n)) (length-upto 0 n) in
        elim (Bool-cases (leb n (length s.order))) [
          | inl t ↦
              let full = leb→le n (length s.order) t in
              let nothing = count-empty p (left 0 s.emitted) (omega (arith, full, total)) in
              rw (t, topological_loop) (omega (arith, all p, nothing))
          | inr t ↦
              let (next, on, ok, smaller) =
                pass-IsPartial s (size, all) (ground (arith, t, total)) in
              rw (t, on, topological_loop)
                (topological_loop_complete fuel next (omega (arith, enough, smaller)) ok p)
        ]

    -- The topological order of a band holds each of its blocks once, whatever its edges: the passes that
    -- the fuel allows are enough.
    pub count-stable_topological_order :
        (p : ℕ → Bool) (edges : List (WeightedEdge D)) (breaks : List (ReadingOrderCycleBreak D))
        → count p (stable_topological_order elements ranges column_count edges breaks).0
          ≡ count p (upto 0 (length elements))
    unfolding stable_topological_order start_order
    count-stable_topological_order p edges breaks =
        let n = length elements in
        topological_loop_complete (n + length edges)
          (start_order elements ranges column_count edges breaks)
          (rw (left-replicate 0 n)
            (omega (arith, length-upto 0 n, count-bounded (λ e. e.active) edges)))
          (length-replicate n false, λ q. rw (left-replicate 0 n) (omega arith)) p
