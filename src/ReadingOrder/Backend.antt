-- ===== src/ReadingOrder/Backend.antt =====
-- cpp/reading_order/docling_like_reading_order_backend.cpp: `order`, with `orderBody`, which sets captions
-- behind what they describe. `map::at` throws where it finds no placement.
pub mod Captions
pub mod Placed
pub mod Sums
pub mod Body
pub mod Complete
mod Tests
use technical_doc_parser.Prelude.{
  ℕ, zero, suc, ◌+◌, Bool, true, false, ◌&&◌, ◌||◌, not, Option, none, some, List, [], ◌∷◌, ◌++◌,
  map, Text, bytes, text_eq, nat_eq, ◌==◌, nat_beq, length, all, get_or, if◌then◌else◌,
}
use technical_doc_parser.Prelude.Int.{ℤ}
use technical_doc_parser.Prelude.Dict.{lookup, insert, emplace}
use technical_doc_parser.Prelude.Double.{Double}
use technical_doc_parser.Document.Text.{BBox}
use technical_doc_parser.Document.Layout.{
  LayoutBlockType, LayoutBlock, PageLayout, ReadingOrderPlacement, ReadingOrderTrace,
  ReadingOrderItem, PageReadingOrder, text, table, figure, header, footer,
}
use technical_doc_parser.ReadingOrder.Columns.{PageElement, element_at, sorted_by_position, upto}
use technical_doc_parser.ReadingOrder.Columns.Infer.{keep}
use technical_doc_parser.ReadingOrder.Graph.{count_up}
use technical_doc_parser.ReadingOrder.Groups.{Grouping, predict_group_order}

abbrev pub is_text : LayoutBlockType → Bool
is_text t = elim t [ text ↦ true | _ ↦ false ]

-- A figure or a table.
abbrev pub is_visual : LayoutBlockType → Bool
is_visual t = elim t [ figure ↦ true | table ↦ true | _ ↦ false ]

abbrev pub is_header : LayoutBlockType → Bool
is_header t = elim t [ header ↦ true | _ ↦ false ]

abbrev pub is_footer : LayoutBlockType → Bool
is_footer t = elim t [ footer ↦ true | _ ↦ false ]

abbrev pub is_nothing : Option ℕ → Bool
is_nothing none = true
is_nothing (some n) = false

abbrev pub list_or_empty : Option (List ℕ) → List ℕ
list_or_empty none = []
list_or_empty (some l) = l

-- The result of a call: `refused` where it returns false, `thrown` where it throws.
pub data Answer {ℓ} (D : Type ℓ) : Type ℓ where
  refused thrown : Answer D
  ordered : PageReadingOrder D → Answer D

-- The order and the trace that the loop over the roots extends.
pub record BodyOrder {ℓ} (D : Type ℓ) : Type ℓ where
  pub order : List ℕ
  pub trace : ReadingOrderTrace D

unfoldable pub placement_map :
    List ReadingOrderPlacement
    → List (Text × ReadingOrderPlacement)
    → List (Text × ReadingOrderPlacement)
placement_map [] m = m
placement_map (placement ∷ placements) m =
    placement_map placements (emplace placement.layout_block_id placement m)

-- `captions[parents[index]].push_back(index)`
unfoldable pub add_caption : Option ℕ → ℕ → List (ℕ × List ℕ) → List (ℕ × List ℕ)
add_caption none index captions = captions
add_caption (some target) index captions =
    insert target (list_or_empty (lookup target captions) ++ index ∷ []) captions

unfoldable pub captions_of : (ℕ → Option ℕ) → List ℕ → List (ℕ × List ℕ) → List (ℕ × List ℕ)
unfolding add_caption
captions_of parents [] captions = captions
captions_of parents (index ∷ indices) captions =
    captions_of parents indices (add_caption (parents index) index captions)

module _ {ℓ} {D : Type ℓ} ⦃d : Double D⦄ where
  unfoldable pub is_caption : LayoutBlock D → Bool
  is_caption block =
      is_text block.block_type
      && (block.source_label == bytes "Caption"
          || block.source_label == bytes "caption"
          || block.source_label == bytes "figure_title")

  unfoldable pub ids_from : ℕ → List (PageElement D) → List (Text × ℕ) → List (Text × ℕ)
  ids_from index [] by_id = by_id
  ids_from index (element ∷ elements) by_id =
      ids_from (suc index) elements (emplace element.block.id index by_id)

  module _ (elements : List (PageElement D)) where
    -- `parents[index]`
    unfoldable pub caption_parent : ℕ → Option ℕ
    unfolding is_caption ids_from
    caption_parent index =
        let block = (element_at elements index).block in
        if not (is_caption block)
        then none
        else elim (lookup block.related_block_id (ids_from 0 elements [])) [
          | none ↦ none
          | some target ↦
              if nat_beq target index
              then none
              else if is_visual (element_at elements target).block.block_type
              then some target
              else none
        ]

    unfoldable pub root_indices : List ℕ
    unfolding caption_parent
    root_indices = keep (λ index. is_nothing (caption_parent index)) (upto 0 (length elements))

    unfoldable pub attached : ReadingOrderPlacement → Text → ℕ → BodyOrder D → BodyOrder D
    unfolding count_up
    attached placement id caption s = record {
      order = s.order ++ caption ∷ [];
      trace = record s.trace {
        placements =
            s.trace.placements
            ++ record placement {
              layout_block_id = (element_at elements caption).block.id;
              parent_layout_block_id = id;
            }
              ∷ [];
        edge_counts = count_up (bytes "caption_target") s.trace.edge_counts;
      };
    }

    -- The loop over the captions of a block.
    unfoldable pub attach :
        List (Text × ReadingOrderPlacement) → Text → List ℕ → BodyOrder D → Option (BodyOrder D)
    unfolding attached
    attach placements id [] s = some s
    attach placements id (caption ∷ captions) s = elim (lookup id placements) [
      | none ↦ none
      | some placement ↦ attach placements id captions (attached placement id caption s)
    ]

    -- The loop over the roots, of which the indices are those among the elements.
    unfoldable pub attach_all :
        List (Text × ReadingOrderPlacement)
        → List (ℕ × List ℕ)
        → List ℕ
        → BodyOrder D
        → Option (BodyOrder D)
    unfolding attach sorted_by_position
    attach_all placements captions [] s = some s
    attach_all placements captions (index ∷ roots) s =
        let children = sorted_by_position elements (list_or_empty (lookup index captions)) in
        elim (attach placements (element_at elements index).block.id children
          (record s { order = s.order ++ index ∷ [] })) [
            | none ↦ none
            | some next ↦ attach_all placements captions roots next
          ]

    -- `orderBody`, with the next band index.
    unfoldable pub order_body : ℕ → ReadingOrderTrace D → Option (BodyOrder D × ℕ)
    unfolding caption_parent captions_of root_indices predict_group_order placement_map attach_all
    order_body next_band_index trace =
        let roots = map (element_at elements) root_indices in
        let grouping = predict_group_order roots (bytes "body") next_band_index trace in
        let start : BodyOrder D = record { order = []; trace = grouping.trace } in
        elim (attach_all (placement_map grouping.trace.placements [])
          (captions_of caption_parent (upto 0 (length elements)) [])
          (map (λ root. get_or root_indices root 0) grouping.order) start) [
            | none ↦ none
            | some s ↦ some (s, grouping.next_band_index)
          ]

  unfoldable pub append_items :
      List (PageElement D) → List ℕ → List ReadingOrderItem → List ReadingOrderItem
  append_items elements [] items = items
  append_items elements (index ∷ order) items =
      let element = element_at elements index in
      append_items elements order (
        items
        ++ record {
          layout_block_id = element.block.id;
          layout_block_index = element.layout_block_index;
          sequence_index = length items;
        }
          ∷ [])

  -- `collectElements`, from an index on; `wanted` tells of a type whether its blocks are collected.
  unfoldable pub collect_elements :
      (LayoutBlockType → Bool) → ℕ → List (LayoutBlock D) → List (PageElement D)
  collect_elements wanted index [] = []
  collect_elements wanted index (block ∷ blocks) =
      let rest = collect_elements wanted (suc index) blocks in
      if wanted block.block_type
      then record { layout_block_index = index; block = block; bbox = block.bbox } ∷ rest
      else rest

  unfoldable pub has_finite_box : LayoutBlock D → Bool
  has_finite_box block =
      d.is_finite block.bbox.x0
      && d.is_finite block.bbox.y0
      && d.is_finite block.bbox.x1
      && d.is_finite block.bbox.y1

  abbrev pub first_trace : ReadingOrderTrace D
  first_trace = record {
    algorithm = bytes "band-column-topological-v3";
    placements = [];
    edge_counts = [];
    cycle_breaks = [];
  }

  -- `DoclingLikeReadingOrderBackend::order`
  unfoldable pub order_page : PageLayout D → Answer D
  unfolding has_finite_box collect_elements predict_group_order order_body append_items
  order_page layout =
      let headers = collect_elements is_header 0 layout.blocks in
      let body = collect_elements (λ t. not (is_header t || is_footer t)) 0 layout.blocks in
      let footers = collect_elements is_footer 0 layout.blocks in
      let top = predict_group_order headers (bytes "header") 0 first_trace in
      if not (all has_finite_box layout.blocks)
      then refused
      else elim (order_body body top.next_band_index top.trace) [
        | none ↦ thrown
        | some (middle, next_band_index) ↦
            let bottom =
              predict_group_order footers (bytes "footer") next_band_index middle.trace in
            ordered (record {
              page_index = layout.page_index;
              page_number = layout.page_number;
              items =
                  append_items footers bottom.order
                    (append_items body middle.order (append_items headers top.order []));
              trace = bottom.trace;
            })
      ]
