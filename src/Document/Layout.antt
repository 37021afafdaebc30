-- ===== src/Document/Layout.antt =====
-- cpp/document/layout_model.h and cpp/document/reading_order_model.h.
use technical_doc_parser.Prelude.{ℕ, List, Text}
use technical_doc_parser.Prelude.Int.{ℤ}
use technical_doc_parser.Document.Text.{BBox}

pub data LayoutBlockType : Type 0 where
  unknown title text list table figure header footer : LayoutBlockType

pub record LayoutBlock {ℓ} (D : Type ℓ) : Type ℓ where
  pub id : Text
  pub block_type : LayoutBlockType
  pub source_label : Text
  pub related_block_id : Text
  pub bbox : BBox D
  pub confidence : D
  pub reading_order_hint : ℤ
  pub text_line_indices : List ℕ

pub record PageLayout {ℓ} (D : Type ℓ) : Type ℓ where
  pub page_index : ℤ
  pub page_number : ℤ
  pub blocks : List (LayoutBlock D)

-- The indices that follow are never negative where they are set.
pub record ReadingOrderPlacement : Type 0 where
  pub layout_block_id : Text
  pub group : Text
  pub band_index : ℕ
  pub column_start : ℕ
  pub column_end : ℕ
  pub parent_layout_block_id : Text

pub record ReadingOrderCycleBreak {ℓ} (D : Type ℓ) : Type ℓ where
  pub from_layout_block_id : Text
  pub to_layout_block_id : Text
  pub reason : Text
  pub confidence : D

pub record ReadingOrderTrace {ℓ} (D : Type ℓ) : Type ℓ where
  pub algorithm : Text
  pub placements : List ReadingOrderPlacement
  pub edge_counts : List (Text × ℕ)
  pub cycle_breaks : List (ReadingOrderCycleBreak D)

pub record ReadingOrderItem : Type 0 where
  pub layout_block_id : Text
  pub layout_block_index : ℕ
  pub sequence_index : ℕ

pub record PageReadingOrder {ℓ} (D : Type ℓ) : Type ℓ where
  pub page_index : ℤ
  pub page_number : ℤ
  pub items : List ReadingOrderItem
  pub trace : ReadingOrderTrace D
