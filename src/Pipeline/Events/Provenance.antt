-- ===== src/Pipeline/Events/Provenance.antt =====
-- cpp/pipeline/document_pipeline.cpp with cpp/pipeline/pipeline_service_factory.cpp: the fallbacks of a
-- chain in the provenance of a run.
use technical_doc_parser.Prelude.{◌≡◌, sym, ◌∙◌, List, [], ◌∷◌, ◌++◌, map, Text, bytes}
use mathlib.Core.List.{append_assoc, append-nil}
use technical_doc_parser.Prelude.Int.{ℤ}
use technical_doc_parser.Prelude.Dict.{lookup}
use technical_doc_parser.Common.Status.{Diagnostic}
use technical_doc_parser.Pipeline.Chain.{Wording, fallback_diagnostic}
use technical_doc_parser.Pipeline.Chain.Fallback.{fallbacks, next_name}
use technical_doc_parser.Pipeline.Events.{
  StageEvent, warned, FallbackProvenance, Recorded, fallback_of, record_diagnostics,
}

-- A record for each backend that failed, with the one that was tried next.
abbrev pub handed_over : Wording → ℤ → List Text → Text → List FallbackProvenance
handed_over w page [] last = []
handed_over w page (name ∷ names) last =
    record {
      stage = w.stage;
      page_number = page;
      failed_backend = name;
      fallback_backend = next_name names last;
      reason = bytes "inference_failed";
    }
    ∷ handed_over w page names last

abbrev pub recorded : List Diagnostic → List FallbackProvenance → List StageEvent → Recorded
recorded ds fs es = record { diagnostics = ds; fallbacks = fs; events = es }

same_recorded :
    {ds ds' : List Diagnostic} {fs fs' : List FallbackProvenance} {es es' : List StageEvent}
    → ds ≡ ds'
    → fs ≡ fs'
    → es ≡ es'
    → recorded ds fs es ≡ recorded ds' fs' es'
same_recorded hd hf he = rw (hd, hf, he)

module _ (w : Wording) (page : ℤ) where
  -- Recording the diagnostics of a chain that falls back from some backends to a last one adds to the
  -- provenance one fallback for each that failed, to the one tried next, and to the run and the
  -- observer the diagnostics in their order.
  pub record_diagnostics-fallbacks :
      (names : List Text) (last : Text) (r : Recorded)
      → record_diagnostics (fallbacks page w names last) r
        ≡ recorded
            (r.diagnostics ++ fallbacks page w names last)
            (r.fallbacks ++ handed_over w page names last)
            (r.events ++ map warned (fallbacks page w names last))
  unfolding record_diagnostics fallback_of fallback_diagnostic lookup
  record_diagnostics-fallbacks [] last r =
      same_recorded (sym (append-nil r.diagnostics)) (sym (append-nil r.fallbacks))
        (sym (append-nil r.events))
  record_diagnostics-fallbacks (name ∷ names) last r =
      let d = fallback_diagnostic w page name (next_name names last) in
      let more = fallbacks page w names last in
      record_diagnostics-fallbacks names last (record {
        diagnostics = r.diagnostics ++ d ∷ [];
        fallbacks = r.fallbacks ++ fallback_of d;
        events = r.events ++ warned d ∷ [];
      })
      ∙ same_recorded (append_assoc r.diagnostics (d ∷ []) more)
          (append_assoc r.fallbacks (fallback_of d) (handed_over w page names last))
          (append_assoc r.events (warned d ∷ []) (map warned more))
