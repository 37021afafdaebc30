-- ===== src/Ocr.antt =====
-- The recognition of text in images: cpp/ocr.
pub mod Orientation
