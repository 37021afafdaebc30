-- ===== src/Pipeline/Chain/Tests.antt =====
-- Three backends of which the first fails, and the names of two.
use technical_doc_parser.Prelude.{
  ℕ, zero, suc, ◌≡◌, refl, any, none, some, List, [], ◌∷◌, Text, bytes, text_eq, ◌==◌,
}
use technical_doc_parser.Prelude.Int.{pos}
use technical_doc_parser.Pipeline.Chain.{
  NamedBackend, Inferred, layout_wording, table_wording, chained_analyze, chained_recognize,
  join_names, contains_backend,
}
use technical_doc_parser.Pipeline.Chain.Fallback.{Answers, chained_analyze_lem}
use technical_doc_parser.Pipeline.Chain.Names.{contains_backend-join_names}

abbrev named : Text → ℕ → NamedBackend ℕ
named name backend = record { name = name; backend = backend }

-- The backend 0 fails.
abbrev infer : ℕ → Inferred ℕ
infer zero = none
infer (suc n) = some (n, [])

abbrev three : List (NamedBackend ℕ)
three = named (bytes "doclaynet") 0 ∷ named (bytes "paddle-layout") 7 ∷ named (bytes "text") 0 ∷ []

chained_analyze_example :
    Answers infer (pos 2) layout_wording three (chained_analyze infer (pos 2) three)
    × Answers infer (pos 2) table_wording three (chained_recognize infer (pos 2) three)
chained_analyze_example = chained_analyze_lem infer (pos 2) three

contains_backend-join_names_example :
    contains_backend (join_names (bytes "doclaynet" ∷ bytes "text" ∷ [])) (bytes "text")
    ≡ any (λ other. other == bytes "text") (bytes "doclaynet" ∷ bytes "text" ∷ [])
unfolding technical_doc_parser.Pipeline.Chain.find_separator
contains_backend-join_names_example =
    contains_backend-join_names (bytes "doclaynet") (bytes "text" ∷ []) (bytes "text") refl
