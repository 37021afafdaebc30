-- ===== src/ReadingOrder/Topological/Active.antt =====
-- cpp/reading_order/docling_like_reading_order_backend.cpp: what a search for a cycle finds are edges that
-- have not been taken away.
use technical_doc_parser.Prelude.{
  ℕ, zero, suc, ◌+◌, ◌≡◌, refl, sym, ap, ◌∙◌, subst, ◌⊎◌, inl, inr, Bool, true, false, ◌&&◌, ◌||◌,
  not, Option, none, some, List, [], ◌∷◌, ◌++◌, nat_beq, length, get_or, set, replicate, All,
  All-append, arith, Bool-cases, Option-cases,
}
use technical_doc_parser.Prelude.Double.{Double}
use technical_doc_parser.ReadingOrder.Graph.{WeightedEdge, edge_at}
use technical_doc_parser.ReadingOrder.Graph.Cycles.{
  Search, Visit, stop, go_on, after_visit, trace_back, close_cycle, visit_edge, below, visit_edges,
  visit, visit_node, visit_nodes, find_cycle_edges,
}

module _ {ℓ κ} {A : Type ℓ} (P : A → Type κ) where
  pub All-set : (xs : List A) (i : ℕ) (v : A) → All P xs → P v → All P (set xs i v)
  All-set [] i v all ok = tt
  All-set (x ∷ xs) zero v (here, rest) ok = (ok, rest)
  All-set (x ∷ xs) (suc i) v (here, rest) ok = (here, All-set xs i v rest ok)

  pub All-get_or : (xs : List A) (i : ℕ) (v : A) → All P xs → P v → P (get_or xs i v)
  All-get_or [] i v all ok = ok
  All-get_or (x ∷ xs) zero v (here, rest) ok = here
  All-get_or (x ∷ xs) (suc i) v (here, rest) ok = All-get_or xs i v rest ok

  All-replicate : (n : ℕ) (v : A) → P v → All P (replicate n v)
  All-replicate zero v ok = tt
  All-replicate (suc n) v ok = (ok, All-replicate n v ok)

add_zero : (n : ℕ) → n ≡ n + 0
add_zero n = omega arith

zero_add : (n : ℕ) → 0 + n ≡ n
zero_add n = omega arith

add_suc : (n j : ℕ) → suc n + j ≡ n + suc j
add_suc n j = omega arith

Visit-cases :
    (v : Visit)
    → ((found : Bool) × (s : Search) × (v ≡ stop found s)) ⊎ ((s : Search) × (v ≡ go_on s))
Visit-cases (stop found s) = inl (found, s, refl)
Visit-cases (go_on s) = inr (s, refl)

module _ {ℓ} {D : Type ℓ} ⦃d : Double D⦄ (edges : List (WeightedEdge D)) (emitted : List Bool) where
  abbrev pub Active : ℕ → Type 0
  Active index = (edge_at edges index).active ≡ true

  abbrev ActiveParent : Option ℕ → Type 0
  ActiveParent none = Unit
  ActiveParent (some index) = Active index

  abbrev Sound : Search → Type 0
  Sound s = All ActiveParent s.parent_edge × All Active s.cycle

  abbrev SoundVisit : Visit → Type 0
  SoundVisit (stop found s) = Sound s
  SoundVisit (go_on s) = Sound s

  abbrev ActiveCycle : Option (List ℕ) → Type 0
  ActiveCycle none = Unit
  ActiveCycle (some cycle) = All Active cycle

  trace_back-Active :
      (parents : List (Option ℕ)) (fuel target current : ℕ) (cycle : List ℕ)
      → All ActiveParent parents
      → All Active cycle
      → ActiveCycle (trace_back edges emitted parents fuel target current cycle)
  unfolding trace_back
  trace_back-Active parents zero target current cycle ps cs = tt
  trace_back-Active parents (suc fuel) target current cycle ps cs =
      elim (Bool-cases (nat_beq current target)) [
        | inl t ↦ rw (t, trace_back) cs
        | inr t ↦ elim (Option-cases (get_or parents current none)) [
          | inl o ↦ rw (t, o, trace_back) tt
          | inr (incoming, o) ↦
              let active =
                subst ActiveParent o (All-get_or ActiveParent parents current none ps tt) in
              rw (t, o, trace_back)
                (trace_back-Active parents fuel target (edge_at edges incoming).from
                  (cycle ++ incoming ∷ []) ps
                  (All-append Active cycle (incoming ∷ []) cs (active, tt)))
        ]
      ]

  close_cycle-Sound :
      (node index : ℕ) (edge : WeightedEdge D) (s : Search)
      → Active index
      → Sound s
      → SoundVisit (close_cycle edges emitted node index edge s)
  unfolding close_cycle
  close_cycle-Sound node index edge s active (ps, cs) =
      let traced =
        trace_back-Active s.parent_edge (suc (length emitted)) edge.to node (s.cycle ++ index ∷ [])
          ps (All-append Active s.cycle (index ∷ []) cs (active, tt)) in
      closed _ refl traced
    where
      closed :
          (answer : Option (List ℕ))
          → trace_back edges emitted s.parent_edge
              (suc (length emitted))
              edge.to
              node
              (s.cycle ++ index ∷ [])
            ≡ answer
          → ActiveCycle answer
          → SoundVisit (close_cycle edges emitted node index edge s)
      closed none t ok = rw (t, close_cycle) (ps, tt)
      closed (some cycle) t ok = rw (t, close_cycle) (ps, ok)

  -- A visit that keeps what is sound.
  abbrev Keeps : (ℕ → Search → Bool × Search) → Type 0
  Keeps visit = (node : ℕ) (s : Search) → Sound s → Sound (visit node s).1

  after_visit-Sound : (r : Bool × Search) → Sound r.1 → SoundVisit (after_visit r)
  after_visit-Sound (true, s) ok = ok
  after_visit-Sound (false, s) ok = ok

  below-Sound :
      (index : ℕ) (edge : WeightedEdge D) (s : Search)
      → Active index
      → Sound s
      → Sound (below edges emitted index edge s)
  below-Sound index edge s active (ps, cs) =
      (All-set ActiveParent s.parent_edge edge.to (some index) ps active, cs)

  visit_edge-Sound :
      (visit : ℕ → Search → Bool × Search) (node index : ℕ) (edge : WeightedEdge D) (s : Search)
      → Keeps visit
      → edge_at edges index ≡ edge
      → Sound s
      → SoundVisit (visit_edge edges emitted visit node index edge s)
  unfolding visit_edge
  visit_edge-Sound visit node index edge s keeps here ok =
      elim (Bool-cases
        (not edge.active || not (nat_beq edge.from node) || get_or emitted edge.to false)) [
          | inl t ↦ rw (t, visit_edge) ok
          | inr t ↦
              let active = subst (λ e. e.active ≡ true) (sym here) (ground (arith, t)) in
              rw (t, visit_edge) (state_of (get_or s.state edge.to 0) active)
        ]
    where
      state_of :
          (n : ℕ)
          → Active index
          → SoundVisit (elim n [
            | zero ↦ after_visit (visit edge.to (below edges emitted index edge s))
            | suc zero ↦ close_cycle edges emitted node index edge s
            | suc (suc m) ↦ go_on s
          ])
      state_of zero active =
          after_visit-Sound _ (keeps edge.to _ (below-Sound index edge s active ok))
      state_of (suc zero) active = close_cycle-Sound node index edge s active ok
      state_of (suc (suc n)) active = ok

  -- The edges of the loop from an index are those of the whole list.
  abbrev Suffix : ℕ → List (WeightedEdge D) → Type ℓ
  Suffix index rest = (j : ℕ) → edge_at edges (index + j) ≡ edge_at rest j

  visit_edges-Sound :
      (visit : ℕ → Search → Bool × Search) (node index : ℕ) (rest : List (WeightedEdge D))
      (s : Search)
      → Keeps visit
      → Suffix index rest
      → Sound s
      → Sound (visit_edges edges emitted visit node index rest s).1
  unfolding visit_edges
  visit_edges-Sound visit node index [] s keeps suffix ok = ok
  visit_edges-Sound visit node index (edge ∷ rest) s keeps suffix ok =
      let sound =
        visit_edge-Sound visit node index edge s keeps
          (ap (edge_at edges) (add_zero index) ∙ suffix 0) ok in
      elim (Visit-cases (visit_edge edges emitted visit node index edge s)) [
        | inl (found, s', t) ↦ rw (t, visit_edges) (subst SoundVisit t sound)
        | inr (s', t) ↦
            rw (t, visit_edges)
              (visit_edges-Sound visit node (suc index) rest s' keeps
                (λ j. ap (edge_at edges) (add_suc index j) ∙ suffix (suc j))
                (subst SoundVisit t sound))
      ]

  visit-Sound : (fuel : ℕ) → Keeps (visit edges emitted fuel)
  unfolding visit
  visit-Sound zero node s ok = ok
  visit-Sound (suc fuel) node s ok =
      visit_edges-Sound (visit edges emitted fuel) node 0 edges
        (record s { state = set s.state node 1 }) (visit-Sound fuel)
        (λ j. ap (edge_at edges) (zero_add j)) ok

  visit_node-Sound :
      (node : ℕ) (gone : Bool) (s : Search)
      → Sound s
      → SoundVisit (visit_node edges emitted node gone s)
  unfolding visit_node
  visit_node-Sound node gone s ok =
      elim (Bool-cases (not gone && nat_beq (get_or s.state node 0) 0)) [
        | inl t ↦
            rw (t, visit_node) (after_visit-Sound _ (visit-Sound (suc (length emitted)) node s ok))
        | inr t ↦ rw (t, visit_node) ok
      ]

  visit_nodes-Active :
      (node : ℕ) (flags : List Bool) (s : Search)
      → Sound s
      → All Active (visit_nodes edges emitted node flags s)
  unfolding visit_nodes
  visit_nodes-Active node [] s ok = tt
  visit_nodes-Active node (gone ∷ flags) s ok =
      elim (Visit-cases (visit_node edges emitted node gone s)) [
        | inl (found, s', t) ↦
            rw (t, visit_nodes) (subst SoundVisit t (visit_node-Sound node gone s ok)).1
        | inr (s', t) ↦
            rw (t, visit_nodes)
              (visit_nodes-Active (suc node) flags s'
                (subst SoundVisit t (visit_node-Sound node gone s ok)))
      ]

  pub find_cycle_edges-Active : All Active (find_cycle_edges edges emitted)
  unfolding find_cycle_edges
  find_cycle_edges-Active =
      visit_nodes-Active 0 emitted _ (All-replicate ActiveParent (length emitted) none tt, tt)
