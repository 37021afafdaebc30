-- ===== src/Document/Warnings/Tests.antt =====
-- Runs of cpp/document/warning_aggregator.cpp, and its theorems at concrete inputs.
use technical_doc_parser.Prelude.{ℕ, ◌≡◌, refl, true, some, List, [], ◌∷◌, arith, Text, bytes, map}
use mathlib.Core.Option
use technical_doc_parser.Prelude.Dict.{lookup, emplace}
use technical_doc_parser.Document.Warnings.{
  DocumentWarning, WarningIdentity, identity, aggregate_warnings, aggregate_step, size_max,
}
use technical_doc_parser.Document.Warnings.Merge.{entry}
use technical_doc_parser.Document.Warnings.Occurrences.{tally, occurrences-aggregate_warnings}
use technical_doc_parser.Document.Warnings.Pages.{on_page, found, pages-aggregate_warnings}
use technical_doc_parser.Document.Warnings.Order.{first_seen, identities-aggregate_warnings}

abbrev warning : Text → Text → ℕ → DocumentWarning
warning code page count = record {
  code = code;
  message = [];
  stage = [];
  page_id = page;
  block_id = [];
  details = [];
  occurrence_count = count;
  page_ids = [];
}

abbrev three_warnings : List DocumentWarning
three_warnings =
    warning (bytes "a") (bytes "p1") 1
    ∷ warning (bytes "b") (bytes "p1") size_max
    ∷ warning (bytes "a") (bytes "p2") 2
    ∷ []

aggregated_pair :
    aggregate_warnings three_warnings
    ≡ record (warning (bytes "a") [] 3) { page_ids = bytes "p1" ∷ bytes "p2" ∷ [] }
      ∷ warning (bytes "b") (bytes "p1") size_max
      ∷ []
unfolding aggregate_warnings aggregate_step lookup emplace
aggregated_pair = refl

abbrev first_identity : WarningIdentity
first_identity = record { code = bytes "a"; message = []; stage = []; block_id = []; details = [] }

occurrences-aggregate_warnings_example :
    Option.map
      (λ (w : DocumentWarning). w.occurrence_count)
      (entry first_identity (aggregate_warnings three_warnings))
    ≡ some 3
unfolding tally identity
occurrences-aggregate_warnings_example =
    occurrences-aggregate_warnings first_identity three_warnings (omega arith)

pages-aggregate_warnings_example :
    found (bytes "p2") (entry first_identity (aggregate_warnings three_warnings)) ≡ true
unfolding on_page identity
pages-aggregate_warnings_example =
    pages-aggregate_warnings first_identity (bytes "p2") three_warnings refl

identities-aggregate_warnings_example :
    map identity (aggregate_warnings three_warnings) ≡ first_seen [] (map identity three_warnings)
identities-aggregate_warnings_example = identities-aggregate_warnings three_warnings
