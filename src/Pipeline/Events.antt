-- ===== src/Pipeline/Events.antt =====
-- cpp/pipeline/document_pipeline.cpp: what a stage of a run tells its observer, and what is recorded of the
-- diagnostics. The observer is the list of what it was told, a duration is a number of the clock's ticks, and
-- `milliseconds`, the cast of a duration, is a parameter.
pub mod Lifecycle
pub mod Provenance
mod Tests
use technical_doc_parser.Prelude.{
  ℕ, ◌+◌, Bool, true, false, not, Option, none, some, List, [], ◌∷◌, ◌++◌, Text, bytes, text_eq,
  if◌then◌else◌,
}
use technical_doc_parser.Prelude.Int.{ℤ, pos}
use technical_doc_parser.Prelude.Dict.{lookup}
use technical_doc_parser.Common.Status.{Status, Diagnostic, ok, error}

pub data StageEvent : Type 0 where
  started : Text → Text → ℤ → StageEvent
  progressed : Text → ℤ → ℤ → StageEvent
  completed : Text → ℕ → StageEvent
  failed : Text → Text → Text → Bool → StageEvent
  warned : Diagnostic → StageEvent

-- `PageStage`, with its observer.
pub record PageStage : Type 0 where
  pub stage : Text
  pub backend : Text
  pub total : ℤ
  pub active_time : ℕ
  pub has_started : Bool
  pub diagnostics : List Diagnostic
  pub events : List StageEvent

unfoldable pub new_stage : Text → Text → ℤ → List StageEvent → PageStage
new_stage stage backend total events = record {
  stage = stage;
  backend = backend;
  total = total;
  active_time = 0;
  has_started = false;
  diagnostics = [];
  events = events;
}

unfoldable pub begin : PageStage → PageStage
begin s = if s.has_started then s else record s {
  events = s.events ++ started s.stage s.backend s.total ∷ [];
  has_started = true;
}

-- `measure` of an operation that takes this long.
unfoldable pub measure_stage : ℕ → PageStage → PageStage
measure_stage elapsed s = record s { active_time = s.active_time + elapsed }

unfoldable pub progress : ℤ → PageStage → PageStage
progress done s = record s { events = s.events ++ progressed s.stage done s.total ∷ [] }

unfoldable pub warnings : List Diagnostic → PageStage → PageStage
warnings [] s = s
warnings (value ∷ values) s =
    warnings values (record s {
      events = s.events ++ warned value ∷ [];
      diagnostics = s.diagnostics ++ value ∷ [];
    })

unfoldable pub complete : (ℕ → ℕ) → PageStage → PageStage
unfolding begin progress
complete milliseconds s =
    let begun = if s.has_started then s else progress (pos 0) (begin s) in
    record begun {
      events = begun.events ++ completed begun.stage (milliseconds begun.active_time) ∷ [];
    }

-- `stageFailed`: the status, and what the observer is told.
unfoldable pub stage_failed : Text → Text → Text → Bool → List StageEvent → Status × List StageEvent
stage_failed stage code message retryable events =
    (error code message stage retryable, events ++ failed stage code message retryable ∷ [])

pub record FallbackProvenance : Type 0 where
  pub stage : Text
  pub page_number : ℤ
  pub failed_backend : Text
  pub fallback_backend : Text
  pub reason : Text

-- What `recordDiagnostics` changes.
pub record Recorded : Type 0 where
  pub diagnostics : List Diagnostic
  pub fallbacks : List FallbackProvenance
  pub events : List StageEvent

unfoldable pub fallback_of : Diagnostic → List FallbackProvenance
fallback_of diagnostic = elim (lookup (bytes "failed_backend") diagnostic.details) [
  | none ↦ []
  | some failed_backend ↦ elim (lookup (bytes "fallback_backend") diagnostic.details) [
    | none ↦ []
    | some fallback_backend ↦
        let reason : Text = elim (lookup (bytes "reason") diagnostic.details) [
          | none ↦ diagnostic.message
          | some reason ↦ reason
        ] in
        record {
          stage = diagnostic.stage;
          page_number = diagnostic.page_number;
          failed_backend = failed_backend;
          fallback_backend = fallback_backend;
          reason = reason;
        }
        ∷ []
  ]
]

unfoldable pub record_diagnostics : List Diagnostic → Recorded → Recorded
unfolding fallback_of
record_diagnostics [] r = r
record_diagnostics (diagnostic ∷ diagnostics) r = record_diagnostics diagnostics (record {
  diagnostics = r.diagnostics ++ diagnostic ∷ [];
  fallbacks = r.fallbacks ++ fallback_of diagnostic;
  events = r.events ++ warned diagnostic ∷ [];
})
