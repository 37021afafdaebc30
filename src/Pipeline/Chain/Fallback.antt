-- ===== src/Pipeline/Chain/Fallback.antt =====
-- cpp/pipeline/pipeline_service_factory.cpp: which backend of a chain answers, and what is recorded of
-- those that failed before it.
use technical_doc_parser.Prelude.{
  ◌≡◌, refl, sym, ap, ◌∙◌, ◌⊎◌, inl, inr, none, some, List, [], ◌∷◌, ◌++◌, map, Text, All,
  Option-cases,
}
use mathlib.Core.List.{append_assoc}
use technical_doc_parser.Prelude.Int.{ℤ}
use technical_doc_parser.Common.Status.{Diagnostic}
use technical_doc_parser.Pipeline.Chain.{
  NamedBackend, Inferred, Wording, layout_wording, table_wording, fallback_diagnostic, handover,
  chain_loop, chained_analyze, chained_recognize,
}

-- The first of the names, or the last one.
abbrev pub next_name : List Text → Text → Text
next_name [] last = last
next_name (name ∷ names) last = name

-- A diagnostic for each backend that failed, with the one that was tried after it.
abbrev pub fallbacks : ℤ → Wording → List Text → Text → List Diagnostic
fallbacks page w [] last = []
fallbacks page w (name ∷ names) last =
    fallback_diagnostic w page name (next_name names last) ∷ fallbacks page w names last

module _ {ℓ κ} {B : Type ℓ} {R : Type κ} (infer : B → Inferred R) (page : ℤ) where
  -- The answer of a chain: none if all of its backends fail, and else that of the first that does not
  -- fail, behind the diagnostics of those before it.
  abbrev pub Answers : Wording → List (NamedBackend B) → Inferred R → Type (ℓ ⊔ κ)
  Answers w backends answer =
      (All (λ b. infer b.backend ≡ none) backends × (answer ≡ none))
      ⊎ ((before : List (NamedBackend B)) × (b : NamedBackend B) × (after : List (NamedBackend B))
          × (candidate : R) × (own : List Diagnostic) × (backends ≡ before ++ b ∷ after)
          × All (λ a. infer a.backend ≡ none) before
          × (infer b.backend ≡ some (candidate, own))
          × (answer ≡ some (candidate, fallbacks page w (map (λ a. a.name) before) b.name ++ own)))

  abbrev onto : List Diagnostic → Inferred R → Inferred R
  onto diagnostics none = none
  onto diagnostics (some (candidate, own)) = some (candidate, diagnostics ++ own)

  onto_append :
      (d e : List Diagnostic) (answer : Inferred R) → onto (d ++ e) answer ≡ onto d (onto e answer)
  onto_append d e none = refl
  onto_append d e (some (candidate, own)) = ap (λ l. some (candidate, l)) (append_assoc d e own)

  chain_loop-onto :
      (w : Wording) (d : List Diagnostic) (backends : List (NamedBackend B))
      → chain_loop infer page w d backends ≡ onto d (chain_loop infer page w [] backends)
  unfolding chain_loop
  chain_loop-onto w d [] = refl
  chain_loop-onto w d (b ∷ backends) = elim (Option-cases (infer b.backend)) [
    | inr (answer, t) ↦ rw (t, chain_loop) refl
    | inl t ↦
        let more = handover infer page w b.name backends in
        rw (t, chain_loop)
          (chain_loop-onto w (d ++ more) backends
            ∙ onto_append d more (chain_loop infer page w [] backends)
            ∙ ap (onto d) (sym (chain_loop-onto w more backends)))
  ]

  handover_lem :
      (w : Wording) (failed : Text) (before : List (NamedBackend B)) (b : NamedBackend B)
      (after : List (NamedBackend B))
      → handover infer page w failed (before ++ b ∷ after)
        ≡ fallback_diagnostic w page failed (next_name (map (λ a. a.name) before) b.name) ∷ []
  unfolding handover
  handover_lem w failed [] b after = refl
  handover_lem w failed (a ∷ before) b after = refl

  chain_loop_lem :
      (w : Wording) (backends : List (NamedBackend B))
      → Answers w backends (chain_loop infer page w [] backends)
  unfolding chain_loop
  chain_loop_lem w [] = inl (tt, refl)
  chain_loop_lem w (b ∷ backends) = elim (Option-cases (infer b.backend)) [
    | inr ((candidate, own), t) ↦
        inr ([], b, backends, candidate, own, refl, tt, t, rw (t, chain_loop) refl)
    | inl t ↦ elim (chain_loop_lem w backends) [
      | inl (fail, none_of) ↦ inl (
        (t, fail),
        rw (t, chain_loop)
            (chain_loop-onto w (handover infer page w b.name backends) backends ∙ rw none_of refl),
      )
      | inr (before, c, after, candidate, own, split, fail, answers, is_some) ↦ inr (
        b ∷ before,
        c,
        after,
        candidate,
        own,
        ap (◌∷◌ b) split,
        (t, fail),
        answers,
        rw (t, chain_loop)
            (chain_loop-onto w (handover infer page w b.name backends) backends
              ∙ ap (onto (handover infer page w b.name backends)) is_some
              ∙ ap
                  (λ h.
                    onto h
                      (some (candidate, fallbacks page w (map (λ a. a.name) before) c.name ++ own)))
                  (ap (handover infer page w b.name) split ∙ handover_lem w b.name before c after)),
      )
    ]
  ]

  -- A chain of layout backends, and one of table backends, gives nothing if each of them fails on the
  -- page, and otherwise what the first that does not fail infers, with a diagnostic in front for each
  -- backend before it, in order, that names the backend that failed and the one tried next.
  pub chained_analyze_lem :
      (backends : List (NamedBackend B))
      → Answers layout_wording backends (chained_analyze infer page backends)
        × Answers table_wording backends (chained_recognize infer page backends)
  unfolding chained_analyze chained_recognize
  chained_analyze_lem backends =
      (chain_loop_lem layout_wording backends, chain_loop_lem table_wording backends)
