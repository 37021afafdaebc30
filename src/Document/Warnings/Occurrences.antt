-- ===== src/Document/Warnings/Occurrences.antt =====
-- cpp/document/warning_aggregator.cpp: the occurrence counts of the result.
use mathlib.Core.Option
use Prim.Native.Nat.{min}
use technical_doc_parser.Prelude.{
  ℕ, ◌+◌, ◌≤◌, ◌≡◌, refl, ap, ◌∙◌, Option, none, some, List, [], ◌∷◌, arith, if◌then◌else◌, ◌==◌,
  All,
}
use technical_doc_parser.Document.Warnings.{
  DocumentWarning, WarningIdentity, identity_eq, identity, first_entry, take_in, size_max,
  settle_page, settle, aggregate_warnings,
}
use technical_doc_parser.Document.Warnings.Merge.{entry, gather, entry-aggregate_warnings}

-- The warnings of an identity, counted with their occurrences; `none` where there is no such warning.
abbrev pub add_up : ℕ → Option ℕ → Option ℕ
add_up n none = some n
add_up n (some m) = some (n + m)

unfoldable pub tally : WarningIdentity → List DocumentWarning → Option ℕ
tally k [] = none
tally k (w ∷ ws) = if identity w == k then add_up w.occurrence_count (tally k ws) else tally k ws

-- A count is a `std::size_t`.
abbrev pub Fits : DocumentWarning → Type 0
Fits w = w.occurrence_count ≤ size_max

abbrev counted : DocumentWarning → ℕ
counted w = w.occurrence_count

abbrev capped : Option ℕ → Option ℕ
capped = Option.map (min size_max)

tally-gather :
    (k : WarningIdentity) (ws : List DocumentWarning) (x : DocumentWarning)
    → All Fits ws
    → Fits x
    → Option.map counted (gather k (some x) ws) ≡ capped (add_up x.occurrence_count (tally k ws))
unfolding gather tally take_in
tally-gather k [] x fits fit = ground arith
tally-gather k (w ∷ ws) x (fit_w, fits) fit =
    ground (arith, tally-gather k ws x fits fit, tally-gather k ws (take_in w x) fits)

tally-gather-none :
    (k : WarningIdentity) (ws : List DocumentWarning)
    → All Fits ws
    → Option.map counted (gather k none ws) ≡ capped (tally k ws)
unfolding gather tally first_entry
tally-gather-none k [] fits = refl
tally-gather-none k (w ∷ ws) (fit_w, fits) =
    ground (arith, tally-gather-none k ws fits, tally-gather k ws (first_entry w) fits)

counted-settle_page : (w : DocumentWarning) → counted (settle_page w) ≡ counted w
unfolding settle_page
counted-settle_page w = elim w.page_ids as (λ ps. counted (settle ps w) ≡ counted w) [
  | [] ↦ refl
  | p ∷ [] ↦ refl
  | p ∷ q ∷ ps ↦ refl
]

counted-settled :
    (o : Option DocumentWarning)
    → Option.map counted (Option.map settle_page o) ≡ Option.map counted o
counted-settled none = refl
counted-settled (some w) = ap some (counted-settle_page w)

-- For every identity the result has an entry exactly if some warning has that identity, and its
-- occurrence count is the sum of the counts of those warnings, capped at the largest `size_t`, where
-- each count of the input fits a `size_t`.
pub occurrences-aggregate_warnings :
    (k : WarningIdentity) (ws : List DocumentWarning)
    → All Fits ws
    → Option.map counted (entry k (aggregate_warnings ws)) ≡ capped (tally k ws)
occurrences-aggregate_warnings k ws fits =
    ap (Option.map counted) (entry-aggregate_warnings k ws)
    ∙ counted-settled (gather k none ws)
    ∙ tally-gather-none k ws fits
