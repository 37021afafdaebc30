-- ===== src/Table.antt =====
-- The recognition of tables: cpp/table.
pub mod Assignment
