-- ===== src/ReadingOrder/Graph/Tests.antt =====
-- An edge that replaces a weaker one.
use technical_doc_parser.Prelude.{
  ℕ, ◌≤◌, ◌≡◌, true, not, ◌&&◌, some, List, [], ◌∷◌, bytes, nat_beq, count, arith, if◌then◌else◌,
}
use technical_doc_parser.Prelude.Int.{pos}
use technical_doc_parser.Prelude.Double.{Milli, milli_double}
use technical_doc_parser.ReadingOrder.Graph.{WeightedEdge, add_edge}
use technical_doc_parser.ReadingOrder.Graph.Edges.{joins, find_edge, strongest, add_edge_lem}

abbrev one_edge : List (WeightedEdge Milli)
one_edge =
    record { from = 0; to = 1; confidence = pos 250; reason = bytes "model_hint"; active = true }
    ∷ []

one_edge_unique : (f t : ℕ) → count (joins f t) one_edge ≤ 1
one_edge_unique f t = ground arith

add_edge_example :
    let more = add_edge one_edge 0 1 (pos 1000) (bytes "same_column") in
    (count (joins 0 1) more ≤ 1)
    × (find_edge 0 1 more ≡ (
        if not (nat_beq 0 1) && nat_beq 0 0 && nat_beq 1 1
        then some (strongest (pos 1000) (bytes "same_column") (find_edge 0 1 one_edge))
        else find_edge 0 1 one_edge))
add_edge_example = add_edge_lem one_edge 0 1 (pos 1000) (bytes "same_column") one_edge_unique 0 1
