-- ===== src/Document/Warnings/Order.antt =====
-- cpp/document/warning_aggregator.cpp: the identities of the result and their order.
use mathlib.Core.List.{append-nil, append_assoc}
use technical_doc_parser.Prelude.{
  ◌≡◌, refl, sym, ap, ◌∙◌, Bool, List, [], ◌∷◌, ◌++◌, map, arith, if◌then◌else◌, ◌==◌, any,
  Bool-cases, inl, inr,
}
use technical_doc_parser.Document.Warnings.{
  DocumentWarning, WarningIdentity, identity_eq, identity, settle_page, aggregate_warnings,
  aggregate_loop,
}
use technical_doc_parser.Document.Warnings.Merge.{
  merge_one, merge_all, aggregate_loop_fresh, identity-take_in, identity-first_entry,
  identity-settle_page,
}

abbrev known : List WarningIdentity → WarningIdentity → Bool
known ks k = any (λ j. j == k) ks

-- The identities that are not in `seen`, each where it first occurs.
unfoldable pub first_seen : List WarningIdentity → List WarningIdentity → List WarningIdentity
first_seen seen [] = []
first_seen seen (k ∷ ks) =
    let old = first_seen seen ks in
    let fresh = k ∷ first_seen (seen ++ k ∷ []) ks in if known seen k then old else fresh

identities : List DocumentWarning → List WarningIdentity
identities = map identity

identities-merge_one :
    (w : DocumentWarning) (xs : List DocumentWarning)
    → identities (merge_one w xs) ≡ (
        if known (identities xs) (identity w)
        then identities xs
        else identities xs ++ identity w ∷ [])
unfolding identities merge_one
identities-merge_one w [] = ground (arith, identity-first_entry w)
identities-merge_one w (x ∷ xs) = ground (arith, identity-take_in w x, identities-merge_one w xs)

first_seen_step :
    (k : WarningIdentity) (seen ks : List WarningIdentity)
    → let now = if known seen k then seen else seen ++ k ∷ [] in
      now ++ first_seen now ks ≡ seen ++ first_seen seen (k ∷ ks)
unfolding first_seen
first_seen_step k seen ks = elim (Bool-cases (known seen k)) [
  | inl old ↦ rw old
  | inr new ↦ rw new (append_assoc seen (k ∷ []) (first_seen (seen ++ k ∷ []) ks))
]

identities-merge_all :
    (ws acc : List DocumentWarning)
    → identities (merge_all acc ws) ≡ identities acc ++ first_seen (identities acc) (identities ws)
unfolding identities merge_all first_seen
identities-merge_all [] acc = sym (append-nil (map identity acc))
identities-merge_all (w ∷ ws) acc =
    identities-merge_all ws (merge_one w acc)
    ∙ ap (λ is. is ++ first_seen is (identities ws)) (identities-merge_one w acc)
    ∙ first_seen_step (identity w) (identities acc) (identities ws)

identities_settled : (xs : List DocumentWarning) → identities (map settle_page xs) ≡ identities xs
unfolding identities
identities_settled [] = refl
identities_settled (x ∷ xs) = ground (arith, identity-settle_page x, identities_settled xs)

-- The identities of the result are those of the warnings, each once, in the order in which they
-- first occur.
pub identities-aggregate_warnings :
    (ws : List DocumentWarning)
    → map identity (aggregate_warnings ws) ≡ first_seen [] (map identity ws)
unfolding aggregate_warnings identities
identities-aggregate_warnings ws =
    identities_settled (aggregate_loop (record { aggregated = []; indices = [] }) ws).aggregated
    ∙ ap identities (aggregate_loop_fresh ws)
    ∙ identities-merge_all ws []
