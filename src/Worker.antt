-- ===== src/Worker.antt =====
-- The worker that runs the parser for a queue of jobs: platform/worker.
pub mod Redis
pub mod Scripts
pub mod EngineCache
