-- ===== src/Table/Assignment/Tests.antt =====
-- Two cells side by side, and two words of which one lies in the first.
use technical_doc_parser.Prelude.{
  ℕ, ◌+◌, ◌*◌, ◌≤◌, ◌≡◌, true, Bool, List, [], ◌∷◌, Text, bytes, text_eq, ◌==◌, count, length,
  replicate,
}
use technical_doc_parser.Prelude.Int.{pos}
use technical_doc_parser.Prelude.Double.{Milli, milli_double}
use technical_doc_parser.Document.Text.{BBox}
use technical_doc_parser.Table.Assignment.{TableTextToken, TableCell, assign_tokens}
use technical_doc_parser.Table.Assignment.Tokens.{total, assign_tokens_lem}
use technical_doc_parser.Table.Assignment.Filling.{order_matches, order_matches_lem}

abbrev box : ℕ → ℕ → BBox Milli
box left right = record {
  x0 = pos (left * 1000);
  y0 = pos 0;
  x1 = pos (right * 1000);
  y1 = pos 10000;
}

abbrev cell : ℕ → TableCell Milli
cell column = record {
  row_index = pos 0;
  column_index = pos column;
  text = [];
  bbox = box (column * 50) (column * 50 + 50);
  confidence = pos 1000;
}

abbrev token : Text → ℕ → TableTextToken Milli
token text left = record { text = text; bbox = box left (left + 20); confidence = pos 900 }

abbrev cells : List (TableCell Milli)
cells = cell 0 ∷ cell 1 ∷ []

abbrev tokens : List (TableTextToken Milli)
tokens = token (bytes "b") 25 ∷ token (bytes "a") 2 ∷ token (bytes "a") 300 ∷ []

abbrev is_a : TableTextToken Milli → Bool
is_a t = t.text == bytes "a"

assign_tokens_example :
    let (matches, stats) =
      assign_tokens
        (box 0 100)
        cells
        tokens
        (replicate (length cells) [])
        (record { assigned_tokens = 0; ambiguous_tokens = 0; unassigned_tokens = 0 }) in
    (total is_a matches ≤ count is_a tokens)
    × (total (λ _. true) matches ≡ stats.assigned_tokens)
    × (stats.ambiguous_tokens ≤ stats.assigned_tokens)
    × (stats.assigned_tokens + stats.unassigned_tokens ≤ length tokens)
assign_tokens_example = assign_tokens_lem is_a (box 0 100) cells tokens

order_matches_example : count is_a (order_matches tokens) ≡ count is_a tokens
order_matches_example = order_matches_lem is_a tokens
