-- ===== src/Lib.antt =====
-- The core of technical-doc-parser. A worker (platform/worker) takes jobs from a Redis stream, finds
-- an engine for the job's backends, and runs it over a document; the engine reads the pages, takes
-- their native text or recognizes it (cpp/pipeline, cpp/ocr), and assembles the document (cpp/document)
-- over images that a cache keeps (cpp/image). The lower parts (cpp/common) are used by all of them.
--
-- Prelude: what the other modules share: Boolean tests and lists over the native numbers, texts as
--   lists of bytes, signed integers, association lists for maps, sorting, bit masks, and `Double`, the
--   operations of a double as a parameter, with an instance of exact thousandths for the examples.
-- Common.Utf8: cpp/common/utf8.h. Common.Sha256 and Common.Fingerprint: cpp/common/file_fingerprint.cpp,
--   with the loop of `update` on fuel: each pass takes a byte, so the number of bytes is enough, and
--   the digest is compared with a definition that has neither buffer nor loop. Common.Status:
--   cpp/common/status.h and diagnostic.h.
-- Document.Warnings: cpp/document/warning_aggregator.cpp. Document.Text: cpp/document/text_model.h.
--   Document.Rotation: the geometry of cpp/document/page_rotation.cpp. Document.Normalizer:
--   cpp/document/text_normalizer.cpp, its local variables as a record that each token changes.
-- Image.Cache: cpp/image/page_image_cache.cpp; `admit_rendered`, `read` and `clear` are its methods, on
--   64-bit counters that wrap around. OpenCV is the parameter `Codec`.
-- Ocr.Orientation: cpp/ocr/orientation_policy.cpp.
-- Pipeline.Registry and Pipeline.Config: cpp/pipeline/backend_registry.h and .cpp; the parsed JSON is an
--   argument. Pipeline.TextQuality: cpp/pipeline/text_quality.cpp. Pipeline.TextExtraction:
--   cpp/pipeline/text_extraction_stage.cpp, over the parameters of a native extractor and an OCR backend.
-- Pipeline.Chain and Pipeline.Services: cpp/pipeline/pipeline_service_factory.cpp, the chains of backends
--   and the choice of the backends of a run over the registry. Pipeline.Ordering:
--   cpp/pipeline/reading_order_stage.cpp. Pipeline.Events: PageStage and recordDiagnostics of
--   cpp/pipeline/document_pipeline.cpp; the observer is the list of the events it was told.
-- Document.Layout: cpp/document/layout_model.h and reading_order_model.h. ReadingOrder:
--   cpp/reading_order/docling_like_reading_order_backend.cpp, in the order of its functions: Columns,
--   Graph (edges and the search for cycles), Topological, Bands, Groups, and Backend (captions and items).
--   The loop of the topological order has the number of blocks and edges as fuel: each pass emits a block
--   or takes an edge away. The search for a cycle has the number of blocks, since a visit marks its block,
--   and the loop that merges columns their number. Comparators over abstract doubles are those of the
--   source; an element of a vector that is read out of bounds would be a blank one.
-- Table.Assignment: cpp/table/table_text_assignment.cpp, with the loop over the groups of a cell's tokens
--   on fuel: each group takes a token, so the number of tokens is enough.
-- Worker.Redis: the commands of the server as an interface with the laws that Redis documents, and a
--   server in memory that meets them. Worker.Scripts: the Lua scripts of
--   platform/worker/redis_job_scripts.h and of `publishEvent` in platform/worker/redis_client.cpp; each
--   runs atomically, at the time that it reads from the server. Worker.Scripts.Runs: sequences of their
--   calls, by any workers. Worker.EngineCache:
--   platform/worker/document_engine_cache.cpp.
--
-- Not modelled: logging, sockets and files beyond what they return, the models behind OCR, layout and
-- tables (they are parameters), the table stage beyond this assignment, the layout stage, the
-- document pipeline's loop over the pages, the assembly and the exporters, the loop of the worker, the
-- SDK's C interface, and the web application. Locks make a call one step, and clocks are arguments.
pub mod Prelude
pub mod Common
pub mod Document
pub mod Image
pub mod Ocr
pub mod Pipeline
pub mod ReadingOrder
pub mod Table
pub mod Worker
