-- ===== src/Pipeline/Events/Lifecycle.antt =====
-- cpp/pipeline/document_pipeline.cpp: the events of one stage of a run.
use technical_doc_parser.Prelude.{
  ℕ, ◌+◌, ◌≡◌, refl, sym, ap, ◌∙◌, subst, Bool, true, false, List, [], ◌∷◌, ◌++◌, Text, count,
  arith,
}
use mathlib.Core.List.{append_assoc, append-nil}
use technical_doc_parser.Prelude.Int.{ℤ}
use technical_doc_parser.Common.Status.{Diagnostic}
use technical_doc_parser.Pipeline.Events.{
  StageEvent, started, progressed, completed, failed, warned, PageStage, new_stage, begin,
  measure_stage, progress, warnings, complete,
}

-- What the pipeline does with a stage between its begin and its completion.
pub data StageStep : Type 0 where
  beginning : StageStep
  measuring : ℕ → StageStep
  progressing : ℤ → StageStep
  warning : List Diagnostic → StageStep

abbrev pub step : StageStep → PageStage → PageStage
unfolding begin measure_stage progress warnings
step beginning s = begin s
step (measuring elapsed) s = measure_stage elapsed s
step (progressing done) s = progress done s
step (warning values) s = warnings values s

abbrev pub steps : List StageStep → PageStage → PageStage
unfolding step
steps [] s = s
steps (one ∷ more) s = steps more (step one s)

-- A start, a completion, or a failure.
abbrev pub is_boundary : StageEvent → Bool
is_boundary e = elim e [
  | started s b t ↦ true
  | completed s n ↦ true
  | failed s c m r ↦ true
  | _ ↦ false
]

abbrev pub warned_of : List StageEvent → List Diagnostic
warned_of [] = []
warned_of (warned value ∷ events) = value ∷ warned_of events
warned_of (started s b t ∷ events) = warned_of events
warned_of (progressed s n t ∷ events) = warned_of events
warned_of (completed s n ∷ events) = warned_of events
warned_of (failed s c m r ∷ events) = warned_of events

count-boundary :
    (middle : List StageEvent) (e : StageEvent)
    → is_boundary e ≡ false
    → count is_boundary middle ≡ 0
    → count is_boundary (middle ++ e ∷ []) ≡ 0
count-boundary [] e h none_of = ground (arith, h)
count-boundary (m ∷ middle) e h none_of =
    ground (arith, h, none_of, count-boundary middle e h (tail m middle none_of))
  where
    tail :
        (m : StageEvent) (middle : List StageEvent)
        → count is_boundary (m ∷ middle) ≡ 0
        → count is_boundary middle ≡ 0
    tail m middle h = ground (arith, h)

warned_of-append :
    (middle more : List StageEvent)
    → warned_of (middle ++ more) ≡ warned_of middle ++ warned_of more
warned_of-append [] more = refl
warned_of-append (warned v ∷ middle) more = ap (◌∷◌ v) (warned_of-append middle more)
warned_of-append (started s b t ∷ middle) more = warned_of-append middle more
warned_of-append (progressed s n t ∷ middle) more = warned_of-append middle more
warned_of-append (completed s n ∷ middle) more = warned_of-append middle more
warned_of-append (failed s c m r ∷ middle) more = warned_of-append middle more

begun_once : (s : PageStage) → s.has_started ≡ true → begin s ≡ s
unfolding begin
begun_once s begun = rw begun

add_assoc : (a b c : ℕ) → a + b + c ≡ a + (b + c)
add_assoc a b c = omega arith

nought_add : (n : ℕ) → 0 + n ≡ n
nought_add n = omega arith

add_nought : (n : ℕ) → n ≡ n + 0
add_nought n = omega arith

-- How long a step measures.
abbrev pub elapsed_of : StageStep → ℕ
elapsed_of (measuring elapsed) = elapsed
elapsed_of beginning = 0
elapsed_of (progressing done) = 0
elapsed_of (warning values) = 0

abbrev pub total_elapsed : List StageStep → ℕ
total_elapsed [] = 0
total_elapsed (one ∷ more) = elapsed_of one + total_elapsed more

module _ (stage backend : Text) (total : ℤ) (before : List StageEvent) where
  -- Behind earlier events stand its start and, in the middle, no other boundary.
  abbrev IsRunning : ℕ → PageStage → Type 0
  IsRunning time s =
      (s.has_started ≡ true)
      × (s.stage ≡ stage)
      × (s.active_time ≡ time)
      × (middle : List StageEvent) × (s.events ≡ before ++ started stage backend total ∷ middle)
      × (count is_boundary middle ≡ 0)
      × (warned_of middle ≡ s.diagnostics)

  tell :
      (middle : List StageEvent) (e : StageEvent) (events : List StageEvent)
      → events ≡ before ++ started stage backend total ∷ middle
      → events ++ e ∷ [] ≡ before ++ started stage backend total ∷ (middle ++ e ∷ [])
  tell middle e events same =
      ap (λ l. l ++ e ∷ []) same
      ∙ append_assoc before (started stage backend total ∷ middle) (e ∷ [])

  warnings-IsRunning :
      (time : ℕ) (values : List Diagnostic) (s : PageStage)
      → IsRunning time s
      → IsRunning time (warnings values s)
  unfolding warnings
  warnings-IsRunning time [] s ok = ok
  warnings-IsRunning time (value ∷ values) s (begun, name, spent, middle, told, inner, listed) =
      warnings-IsRunning time values
        (record s {
          events = s.events ++ warned value ∷ [];
          diagnostics = s.diagnostics ++ value ∷ [];
        })
        (
          begun,
          name,
          spent,
          middle ++ warned value ∷ [],
          tell middle (warned value) s.events told,
          count-boundary middle (warned value) refl inner,
          warned_of-append middle (warned value ∷ []) ∙ ap (λ l. l ++ value ∷ []) listed,
        )

  step-IsRunning :
      (time : ℕ) (one : StageStep) (s : PageStage)
      → IsRunning time s
      → IsRunning (time + elapsed_of one) (step one s)
  unfolding step begin measure_stage progress
  step-IsRunning time beginning s ok =
      let (begun, name, spent, middle, told, inner, listed) = ok in
      subst (IsRunning (time + 0)) (sym (begun_once s begun))
        (subst (λ n. IsRunning n s) (add_nought time) ok)
  step-IsRunning time (measuring elapsed) s (begun, name, spent, middle, told, inner, listed) =
      (begun, name, ap (λ n. n + elapsed) spent, middle, told, inner, listed)
  step-IsRunning time (progressing done) s (begun, name, spent, middle, told, inner, listed) = (
    begun,
    name,
    spent ∙ add_nought time,
    middle ++ progressed s.stage done s.total ∷ [],
    tell middle (progressed s.stage done s.total) s.events told,
    count-boundary middle (progressed s.stage done s.total) refl inner,
    warned_of-append middle (progressed s.stage done s.total ∷ []) ∙ append-nil _ ∙ listed,
  )
  step-IsRunning time (warning values) s ok =
      subst (λ n. IsRunning n (warnings values s)) (add_nought time)
        (warnings-IsRunning time values s ok)

  steps-IsRunning :
      (time : ℕ) (ops : List StageStep) (s : PageStage)
      → IsRunning time s
      → IsRunning (time + total_elapsed ops) (steps ops s)
  unfolding steps
  steps-IsRunning time [] s ok = subst (λ n. IsRunning n s) (add_nought time) ok
  steps-IsRunning time (one ∷ more) s ok =
      subst (λ n. IsRunning n (steps more (step one s)))
        (add_assoc time (elapsed_of one) (total_elapsed more))
        (steps-IsRunning (time + elapsed_of one) more (step one s) (step-IsRunning time one s ok))

  -- A stage that is begun, worked on in any way, begun again included, and completed tells the
  -- observer its start first and last its completion, with the time of all its measured operations;
  -- between them stand no other start, completion or failure, and the warnings there are the stage's
  -- diagnostics in their order.
  pub complete-steps :
      (milliseconds : ℕ → ℕ) (ops : List StageStep)
      → (middle : List StageEvent) × ((complete milliseconds
            (steps (beginning ∷ ops) (new_stage stage backend total before))).events
          ≡ before
            ++ started stage backend total
              ∷ (middle ++ completed stage (milliseconds (total_elapsed ops)) ∷ []))
        × (count is_boundary middle ≡ 0)
        × (warned_of middle
            ≡ (steps (beginning ∷ ops) (new_stage stage backend total before)).diagnostics)
  unfolding complete begin new_stage steps step
  complete-steps milliseconds ops =
      let first = begin (new_stage stage backend total before) in
      let (begun, name, spent, middle, told, inner, listed) =
        steps-IsRunning 0 ops first (refl, refl, refl, [], refl, refl, refl) in
      let whole : (steps ops first).active_time ≡ total_elapsed ops = spent ∙ nought_add _ in
      (
        middle,
        rw (begun, name, whole)
            (tell middle (completed stage (milliseconds (total_elapsed ops))) _ told),
        inner,
        listed,
      )
