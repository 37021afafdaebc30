-- ===== src/Pipeline/Chain.antt =====
-- cpp/pipeline/pipeline_service_factory.cpp: several backends behind one interface, tried in order, and
-- the names under which such a chain is reported. What a backend infers from a page is a parameter:
-- `none` where it returns false.
pub mod Fallback
pub mod Names
mod Tests
use technical_doc_parser.Prelude.{
  ℕ, zero, suc, ◌+◌, Bool, true, false, Option, none, some, List, [], ◌∷◌, ◌++◌, Text, bytes,
  text_eq, ◌==◌, nat_beq, length, take, drop, if◌then◌else◌,
}
use technical_doc_parser.Prelude.Int.{ℤ}
use technical_doc_parser.Common.Status.{Diagnostic}
use technical_doc_parser.Pipeline.Registry.{is_empty}

pub record NamedBackend {ℓ} (B : Type ℓ) : Type ℓ where
  pub name : Text
  pub backend : B

-- A result without its diagnostics, and these.
abbrev pub Inferred {ℓ} : Type ℓ → Type ℓ
Inferred R = Option (R × List Diagnostic)

-- In what the two chains differ.
pub record Wording : Type 0 where
  pub code : Text
  pub message : Text
  pub stage : Text

unfoldable pub fallback_diagnostic : Wording → ℤ → Text → Text → Diagnostic
fallback_diagnostic w page failed next = record {
  code = w.code;
  message = w.message;
  stage = w.stage;
  page_number = page;
  details =
      (bytes "failed_backend", failed)
      ∷ (bytes "fallback_backend", next)
      ∷ (bytes "reason", bytes "inference_failed")
      ∷ [];
}

abbrev pub layout_wording : Wording
layout_wording = record {
  code = bytes "LAYOUT_BACKEND_FALLBACK";
  message = bytes "layout inference failed; continued with the configured fallback chain";
  stage = bytes "layout";
}

abbrev pub table_wording : Wording
table_wording = record {
  code = bytes "TABLE_BACKEND_FALLBACK";
  message = bytes "table inference failed; continued with the configured fallback chain";
  stage = bytes "table";
}

module _ {ℓ κ} {B : Type ℓ} {R : Type κ} (infer : B → Inferred R) (page : ℤ) where
  -- What a failure of a backend adds: the last one has no other to fall back to.
  unfoldable pub handover : Wording → Text → List (NamedBackend B) → List Diagnostic
  unfolding fallback_diagnostic
  handover w failed [] = []
  handover w failed (next ∷ backends) = fallback_diagnostic w page failed next.name ∷ []

  unfoldable pub chain_loop : Wording → List Diagnostic → List (NamedBackend B) → Inferred R
  unfolding handover
  chain_loop w diagnostics [] = none
  chain_loop w diagnostics (b ∷ backends) =
      let rest = chain_loop w (diagnostics ++ handover w b.name backends) backends in
      elim (infer b.backend) [
        | some (candidate, own) ↦ some (candidate, diagnostics ++ own)
        | none ↦ rest
      ]

  -- `ChainedLayoutBackend::analyze`
  unfoldable pub chained_analyze : List (NamedBackend B) → Inferred R
  unfolding chain_loop
  chained_analyze backends = chain_loop layout_wording [] backends

  -- `ChainedTableBackend::recognize`
  unfoldable pub chained_recognize : List (NamedBackend B) → Inferred R
  unfolding chain_loop
  chained_recognize backends = chain_loop table_wording [] backends

-- The loops of `joinNames` and of `joinDetails`.
unfoldable pub join_onto : Text → Text → List Text → Text
join_onto separator joined [] = joined
join_onto separator joined (name ∷ names) =
    join_onto separator (joined ++ (if is_empty joined then [] else separator) ++ name) names

unfoldable pub join_names : List Text → Text
unfolding join_onto
join_names names = join_onto (bytes "->") [] names

unfoldable pub join_details : List Text → Text
unfolding join_onto
join_details details = join_onto (bytes "; ") [] details

-- `find("->")`: where the text first has a separator.
unfoldable pub find_separator : Text → Option ℕ
find_separator [] = none
find_separator (c ∷ []) = none
find_separator (c ∷ e ∷ t) =
    let rest = find_separator (e ∷ t) in
    if nat_beq c 45
    then if nat_beq e 62 then some 0 else elim rest [ none ↦ none | some n ↦ some (suc n) ]
    else elim rest [ none ↦ none | some n ↦ some (suc n) ]

-- The loop over what follows the offset.
unfoldable pub contains_loop : ℕ → Text → Text → Bool
unfolding find_separator
contains_loop zero rest backend = false
contains_loop (suc fuel) rest backend = elim (find_separator rest) [
  | none ↦ rest == backend
  | some length ↦
      let more = contains_loop fuel (drop (length + 2) rest) backend in
      if take length rest == backend then true else more
]

-- `containsBackend`: each pass takes a separator, so the length is enough fuel.
unfoldable pub contains_backend : Text → Text → Bool
unfolding contains_loop
contains_backend resolved backend = contains_loop (suc (length resolved)) resolved backend
