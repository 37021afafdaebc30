-- ===== src/Worker/EngineCache/Tests.antt =====
-- A cache of two engines, and requests for three.
use technical_doc_parser.Prelude.{
  ◌≡◌, refl, true, false, none, some, List, [], ◌∷◌, Text, bytes, take, if◌then◌else◌,
}
use technical_doc_parser.Common.Status.{error}
use technical_doc_parser.Worker.EngineCache.{
  BackendOptions, Paths, normalized_backends, Engines, DocumentEngineCache, new_cache, get,
}
use technical_doc_parser.Worker.EngineCache.Recency.{
  Holds, mem, touch, touch_all, serve_all, get-serve_all,
}

abbrev paths : Paths
paths = record { absolute = λ t. some t; weakly_canonical = λ t. some t; lexically_normal = λ t. t }

-- An engine is the text of its OCR backend.
abbrev engines : Engines Text
engines = record {
  create_unique = λ b. b.ocr;
  is_ready = λ e. true;
  initialization_status = λ e. error (bytes "engine") [] [] false;
}

abbrev options : Text → BackendOptions
options ocr = record {
  document = bytes "pdf";
  ocr = ocr;
  layout = bytes "text";
  table = bytes "text";
  registry_config = [];
}

abbrev requests : List BackendOptions
requests =
    options (bytes "a") ∷ options (bytes "b") ∷ options (bytes "a") ∷ options (bytes "c") ∷ []

abbrev empty : DocumentEngineCache Text
empty = record { capacity = 2; entries = [] }

made : new_cache {E = Text} 2 ≡ some empty
unfolding new_cache
made = refl

get-serve_all_example :
    let n = normalized_backends paths (options (bytes "a")) in
    let recent = touch_all engines paths requests [] in
    let (cache, found) =
      get paths engines (options (bytes "a")) (serve_all engines paths requests empty) in
    Holds engines cache (touch engines n recent)
    × (found.cache_hit ≡ mem n (take (serve_all engines paths requests empty).capacity recent))
    × (found.engine ≡ (
        if engines.is_ready (engines.create_unique n)
        then some (engines.create_unique n)
        else none))
get-serve_all_example = get-serve_all engines paths 2 requests (options (bytes "a")) empty made
