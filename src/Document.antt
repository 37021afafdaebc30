-- ===== src/Document.antt =====
-- The data of a document: cpp/document.
pub mod Warnings
pub mod Text
pub mod Layout
pub mod Rotation
pub mod Normalizer
