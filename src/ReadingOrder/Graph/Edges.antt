-- ===== src/ReadingOrder/Graph/Edges.antt =====
-- cpp/reading_order/docling_like_reading_order_backend.cpp: `addEdge` keeps one edge between two blocks.
use technical_doc_parser.Prelude.{
  ℕ, ◌+◌, ◌≤◌, ◌≡◌, refl, Bool, ◌&&◌, not, Option, none, some, List, [], ◌∷◌, Text, nat_beq,
  nat_beq_iff, count, arith, if◌then◌else◌, inl, inr, Bool-cases,
}
use technical_doc_parser.Prelude.Double.{Double}
use technical_doc_parser.ReadingOrder.Graph.{WeightedEdge, update_edge, add_edge}

abbrev pub joins {ℓ} : {D : Type ℓ} → ℕ → ℕ → WeightedEdge D → Bool
joins from to edge = nat_beq edge.from from && nat_beq edge.to to

-- The first edge between two blocks, as its confidence and its reason.
abbrev pub find_edge {ℓ} : {D : Type ℓ} → ℕ → ℕ → List (WeightedEdge D) → Option (D × Text)
find_edge from to [] = none
find_edge from to (edge ∷ edges) =
    if joins from to edge then some (edge.confidence, edge.reason) else find_edge from to edges

module _ {ℓ} {D : Type ℓ} ⦃d : Double D⦄ where
  -- The stronger of an edge that may be there and a new one.
  abbrev pub strongest : D → Text → Option (D × Text) → D × Text
  strongest confidence reason none = (confidence, reason)
  strongest confidence reason (some (c, r)) =
      if d.lt c confidence then (confidence, reason) else (c, r)

  count-update_edge :
      (from to f t : ℕ) (confidence : D) (reason : Text) (edges : List (WeightedEdge D))
      → count (joins f t) (update_edge from to confidence reason edges)
        ≡ count (joins f t) edges
          + (if nat_beq from f && nat_beq to t && nat_beq (count (joins from to) edges) 0
              then 1
              else 0)
  unfolding update_edge
  count-update_edge from to f t confidence reason [] =
      ground (arith, nat_beq_iff from f, nat_beq_iff to t)
  count-update_edge from to f t confidence reason (edge ∷ edges) = ground (
    arith,
    nat_beq_iff from f,
    nat_beq_iff to t,
    nat_beq_iff edge.from f,
    nat_beq_iff edge.to t,
    nat_beq_iff edge.from from,
    nat_beq_iff edge.to to,
    count-update_edge from to f t confidence reason edges,
  )

  find_edge-update_edge :
      (from to f t : ℕ) (confidence : D) (reason : Text) (edges : List (WeightedEdge D))
      → find_edge f t (update_edge from to confidence reason edges) ≡ (
          if nat_beq from f && nat_beq to t
          then some (strongest confidence reason (find_edge from to edges))
          else find_edge f t edges)
  unfolding update_edge
  find_edge-update_edge from to f t confidence reason [] = refl
  find_edge-update_edge from to f t confidence reason (edge ∷ edges) = ground (
    arith,
    nat_beq_iff from f,
    nat_beq_iff to t,
    nat_beq_iff edge.from f,
    nat_beq_iff edge.to t,
    nat_beq_iff edge.from from,
    nat_beq_iff edge.to to,
    find_edge-update_edge from to f t confidence reason edges,
  )

  -- An edge that is added between two different blocks is there with the stronger of its confidence and
  -- that of an edge that was there; no other edge changes, and if there was at most one edge between any
  -- two blocks, there still is.
  pub add_edge_lem :
      (edges : List (WeightedEdge D)) (from to : ℕ) (confidence : D) (reason : Text)
      → ((f t : ℕ) → count (joins f t) edges ≤ 1)
      → (f t : ℕ)
      → let more = add_edge edges from to confidence reason in
        (count (joins f t) more ≤ 1)
        × (find_edge f t more ≡ (
            if not (nat_beq from to) && nat_beq from f && nat_beq to t
            then some (strongest confidence reason (find_edge from to edges))
            else find_edge f t edges))
  unfolding add_edge
  add_edge_lem edges from to confidence reason unique f t = elim (Bool-cases (nat_beq from to)) [
    | inl same ↦ rw (same, add_edge) (unique f t, refl)
    | inr other ↦
        rw (other, add_edge)
          (
            ground (
              arith,
              unique f t,
              nat_beq_iff from f,
              nat_beq_iff to t,
              count-update_edge from to f t confidence reason edges,
            ),
            find_edge-update_edge from to f t confidence reason edges,
          )
  ]
