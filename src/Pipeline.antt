-- ===== src/Pipeline.antt =====
-- The stages of the pipeline and what configures them: cpp/pipeline.
pub mod Registry
pub mod Config
pub mod Chain
pub mod Services
pub mod Ordering
pub mod Events
pub mod TextQuality
pub mod TextExtraction
