-- ===== src/Pipeline/Events/Tests.antt =====
-- A stage that is begun twice with two diagnostics, and a chain of which two backends fail.
use technical_doc_parser.Prelude.{◌≡◌, List, [], ◌∷◌, ◌++◌, Text, bytes, count, map}
use technical_doc_parser.Prelude.Int.{pos}
use technical_doc_parser.Common.Status.{Diagnostic}
use technical_doc_parser.Pipeline.Chain.{layout_wording}
use technical_doc_parser.Pipeline.Chain.Fallback.{fallbacks}
use technical_doc_parser.Pipeline.Events.{
  StageEvent, started, completed, warned, new_stage, complete, Recorded, record_diagnostics,
}
use technical_doc_parser.Pipeline.Events.Lifecycle.{
  StageStep, beginning, measuring, progressing, warning, steps, total_elapsed, is_boundary,
  warned_of, complete-steps,
}
use technical_doc_parser.Pipeline.Events.Provenance.{
  recorded, handed_over, record_diagnostics-fallbacks,
}

abbrev noted : Text → Diagnostic
noted code = record {
  code = code;
  message = bytes "no columns";
  stage = bytes "layout";
  page_number = pos 1;
  details = [];
}

abbrev work : List StageStep
work =
    measuring 7
    ∷ warning (noted (bytes "a") ∷ noted (bytes "b") ∷ [])
    ∷ progressing (pos 1)
    ∷ beginning
    ∷ measuring 5
    ∷ []

abbrev nothing_recorded : Recorded
nothing_recorded = recorded [] [] []

abbrev earlier : List StageEvent
earlier = started (bytes "document") (bytes "pdf") (pos 2) ∷ []

complete-steps_example :
    (middle : List StageEvent) × ((complete
        (λ n. n)
        (steps
          (beginning ∷ work)
          (new_stage (bytes "layout") (bytes "text") (pos 2) earlier))).events
      ≡ earlier
        ++ started (bytes "layout") (bytes "text") (pos 2)
          ∷ (middle ++ completed (bytes "layout") (total_elapsed work) ∷ []))
    × (count is_boundary middle ≡ 0)
    × (warned_of middle
        ≡ (steps
            (beginning ∷ work)
            (new_stage (bytes "layout") (bytes "text") (pos 2) earlier)).diagnostics)
complete-steps_example =
    complete-steps (bytes "layout") (bytes "text") (pos 2) earlier (λ n. n) work

record_diagnostics-fallbacks_example :
    record_diagnostics
      (fallbacks (pos 1) layout_wording (bytes "doclaynet" ∷ bytes "paddle" ∷ []) (bytes "text"))
      nothing_recorded
    ≡ recorded
        (fallbacks (pos 1) layout_wording (bytes "doclaynet" ∷ bytes "paddle" ∷ []) (bytes "text"))
        (handed_over layout_wording
          (pos 1)
          (bytes "doclaynet" ∷ bytes "paddle" ∷ [])
          (bytes "text"))
        (map warned (
          fallbacks
            (pos 1)
            layout_wording
            (bytes "doclaynet" ∷ bytes "paddle" ∷ [])
            (bytes "text")))
record_diagnostics-fallbacks_example =
    record_diagnostics-fallbacks layout_wording (pos 1) (bytes "doclaynet" ∷ bytes "paddle" ∷ [])
      (bytes "text") nothing_recorded
