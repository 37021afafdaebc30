-- ===== src/ReadingOrder/Backend/Tests.antt =====
-- A page with a header, two columns, a figure with its caption, and a footer.
use technical_doc_parser.Prelude.{
  ℕ, ◌*◌, ◌<◌, ◌≤◌, ◌≡◌, refl, ◌⊎◌, Bool, true, List, [], ◌∷◌, Text, bytes, length, count, text_eq,
}
use technical_doc_parser.Prelude.Int.{ℤ, pos, negsuc}
use technical_doc_parser.Prelude.Double.{Milli, milli_double}
use technical_doc_parser.Document.Text.{BBox}
use technical_doc_parser.Document.Layout.{
  LayoutBlockType, LayoutBlock, PageLayout, PageReadingOrder,
}
use technical_doc_parser.ReadingOrder.Columns.{PageElement, Column, locate_columns, upto}
use technical_doc_parser.ReadingOrder.Columns.Infer.{infer_columns}
use technical_doc_parser.ReadingOrder.Columns.Bounds.{infer_columns-bounded, locate_columns-inside}
use technical_doc_parser.ReadingOrder.Graph.{WeightedEdge}
use technical_doc_parser.ReadingOrder.Topological.{stable_topological_order}
use technical_doc_parser.ReadingOrder.Topological.Complete.{count-stable_topological_order}
use technical_doc_parser.ReadingOrder.Backend.{
  Answer, ordered, order_page, collect_elements, has_finite_box,
}
use technical_doc_parser.ReadingOrder.Backend.Complete.{
  block_indices, IsNumbered, order_page_complete,
}

abbrev box : ℕ → ℕ → ℕ → ℕ → BBox Milli
box x0 y0 x1 y1 = record {
  x0 = pos (x0 * 1000);
  y0 = pos (y0 * 1000);
  x1 = pos (x1 * 1000);
  y1 = pos (y1 * 1000);
}

abbrev block : Text → LayoutBlockType → Text → Text → BBox Milli → LayoutBlock Milli
block id t label related b = record {
  id = id;
  block_type = t;
  source_label = label;
  related_block_id = related;
  bbox = b;
  confidence = pos 1000;
  reading_order_hint = negsuc 0;
  text_line_indices = [];
}

abbrev page : PageLayout Milli
page = record {
  page_index = pos 0;
  page_number = pos 1;
  blocks =
      block (bytes "foot") LayoutBlockType.footer [] [] (box 0 900 600 920)
      ∷ block (bytes "right") LayoutBlockType.text [] [] (box 320 100 600 400)
      ∷ block (bytes "left") LayoutBlockType.text [] [] (box 0 100 280 400)
      ∷ block (bytes "note") LayoutBlockType.text (bytes "Caption") (bytes "plot")
          (box 0 560 280 580)
      ∷ block (bytes "plot") LayoutBlockType.figure [] [] (box 0 420 280 550)
      ∷ block (bytes "head") LayoutBlockType.header [] [] (box 0 10 600 30)
      ∷ [];
}

abbrev places : Answer Milli → List ℕ
places (ordered result) = block_indices result.items
places _ = []

order_page_test : places (order_page page) ≡ 5 ∷ 2 ∷ 4 ∷ 3 ∷ 1 ∷ 0 ∷ []
unfolding order_page technical_doc_parser.Prelude.Sort.stable_sort
    technical_doc_parser.Prelude.Dict.lookup technical_doc_parser.Prelude.Dict.emplace
    technical_doc_parser.Prelude.Int.◌-ℤ◌ technical_doc_parser.Prelude.Int.◌+ℤ◌
    technical_doc_parser.Prelude.Int.◌*ℤ◌ technical_doc_parser.Prelude.Dict.insert
order_page_test = refl

order_page_complete_example :
    (result : PageReadingOrder Milli) × (order_page page ≡ ordered result)
    × ((p : ℕ → Bool)
        → count p (block_indices result.items) ≡ count p (upto 0 (length page.blocks)))
    × IsNumbered result.items
unfolding has_finite_box
order_page_complete_example = order_page_complete page refl

abbrev three : List (PageElement Milli)
three = collect_elements (λ t. true) 0 page.blocks

-- A cycle between the first two blocks.
abbrev cycle : List (WeightedEdge Milli)
cycle =
    record { from = 0; to = 1; confidence = pos 1000; reason = []; active = true }
    ∷ record { from = 1; to = 0; confidence = pos 250; reason = []; active = true }
    ∷ []

count-stable_topological_order_example :
    count (λ i. true) (stable_topological_order three [] 1 cycle []).0
    ≡ count (λ i. true) (upto 0 (length three))
count-stable_topological_order_example =
    count-stable_topological_order three [] 1 (λ i. true) cycle []

infer_columns-bounded_example : length (infer_columns three (1 ∷ 2 ∷ 4 ∷ [])) ≤ 6
infer_columns-bounded_example = infer_columns-bounded three (1 ∷ 2 ∷ 4 ∷ [])

abbrev two_columns : List (Column Milli)
two_columns =
    record { x0 = pos 0; x1 = pos 280000 } ∷ record { x0 = pos 320000; x1 = pos 600000 } ∷ []

locate_columns-inside_example :
    let range = locate_columns (box 0 10 600 30) two_columns in
    (range.first ≤ range.last) × ((range.last < length two_columns) ⊎ (range.last ≡ 0))
locate_columns-inside_example = locate_columns-inside (box 0 10 600 30) two_columns
