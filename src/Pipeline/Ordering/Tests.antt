-- ===== src/Pipeline/Ordering/Tests.antt =====
-- A document of one page with one block.
use technical_doc_parser.Prelude.{◌≡◌, refl, some, [], ◌∷◌, Text, bytes}
use technical_doc_parser.Prelude.Int.{ℤ, pos, negsuc}
use technical_doc_parser.Prelude.Double.{Milli, milli_double}
use technical_doc_parser.Document.Layout.{LayoutBlockType, PageLayout}
use technical_doc_parser.Image.Cache.{PageArtifact}
use technical_doc_parser.Pipeline.Ordering.{OrderingResult, order_pages}
use technical_doc_parser.Pipeline.Ordering.Outcome.{Outcome, backend, order_pages_complete}

abbrev artifact : PageArtifact
artifact = record {
  page_index = pos 0;
  page_number = pos 1;
  width = pos 600;
  height = pos 900;
  output_path = [];
}

abbrev layout : PageLayout Milli
layout = record {
  page_index = pos 0;
  page_number = pos 1;
  blocks =
      record {
        id = bytes "a";
        block_type = LayoutBlockType.text;
        source_label = [];
        related_block_id = [];
        bbox = record { x0 = pos 0; y0 = pos 0; x1 = pos 600000; y1 = pos 30000 };
        confidence = pos 1000;
        reading_order_hint = negsuc 0;
        text_line_indices = [];
      }
      ∷ [];
}

abbrev no_print : ℤ → Text
no_print n = []

order_pages_complete_example :
    (result : OrderingResult Milli) × (order_pages no_print
        (backend no_print)
        (artifact ∷ [])
        (layout ∷ [])
      ≡ some result)
    × Outcome [] (layout ∷ []) result
order_pages_complete_example = order_pages_complete no_print (artifact ∷ []) (layout ∷ []) refl
