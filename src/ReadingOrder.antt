-- ===== src/ReadingOrder.antt =====
-- The order in which a page is read: cpp/reading_order.
pub mod Columns
pub mod Graph
pub mod Topological
pub mod Bands
pub mod Groups
pub mod Backend
