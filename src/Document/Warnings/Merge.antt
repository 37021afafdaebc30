-- ===== src/Document/Warnings/Merge.antt =====
-- cpp/document/warning_aggregator.cpp: the index map is the position in the aggregated list, so that
-- the first loop merges each warning into the entry of its identity, or appends it.
use technical_doc_parser.Prelude.{
  ℕ, zero, suc, ◌≡◌, refl, ap, ◌∙◌, inl, inr, Option, none, some, List, [], ◌∷◌, ◌++◌, arith,
  if◌then◌else◌, ◌==◌, length, Option-cases,
}
use mathlib.Core.List.{map}
use mathlib.Core.Option
use technical_doc_parser.Prelude.Dict.{lookup, lookup-emplace}
use technical_doc_parser.Document.Warnings.{
  DocumentWarning, WarningIdentity, identity_eq, identity_beq_iff, identity, first_entry, take_in,
  modify, Aggregation, aggregate_step, aggregate_loop, aggregate_warnings, settle, settle_page,
}

unfoldable pub merge_one : DocumentWarning → List DocumentWarning → List DocumentWarning
merge_one w [] = first_entry w ∷ []
merge_one w (x ∷ xs) = if identity x == identity w then take_in w x ∷ xs else x ∷ merge_one w xs

unfoldable pub merge_all : List DocumentWarning → List DocumentWarning → List DocumentWarning
merge_all acc [] = acc
merge_all acc (w ∷ ws) = merge_all (merge_one w acc) ws

pub identity-take_in : (w x : DocumentWarning) → identity (take_in w x) ≡ identity x
unfolding identity take_in
identity-take_in w x = refl

pub identity-first_entry : (w : DocumentWarning) → identity (first_entry w) ≡ identity w
unfolding identity first_entry
identity-first_entry w = refl

abbrev next : Option ℕ → Option ℕ
next none = none
next (some i) = some (suc i)

position : WarningIdentity → List DocumentWarning → Option ℕ
position k [] = none
position k (x ∷ xs) = if identity x == k then some 0 else next (position k xs)

merge_one_absent :
    (w : DocumentWarning) (xs : List DocumentWarning)
    → position (identity w) xs ≡ none
    → merge_one w xs ≡ xs ++ first_entry w ∷ []
unfolding merge_one position
merge_one_absent w [] h = refl
merge_one_absent w (x ∷ xs) h = ground (arith, merge_one_absent w xs)

merge_one_present :
    (w : DocumentWarning) (xs : List DocumentWarning) (i : ℕ)
    → position (identity w) xs ≡ some i
    → merge_one w xs ≡ modify i (take_in w) xs
unfolding merge_one position
merge_one_present w [] i h = ground arith
merge_one_present w (x ∷ xs) zero h = ground arith
merge_one_present w (x ∷ xs) (suc i) h = ground (arith, merge_one_present w xs i)

position-append :
    (k : WarningIdentity) (y : DocumentWarning) (xs : List DocumentWarning)
    → position k (xs ++ y ∷ []) ≡ elim (position k xs) [
      | some i ↦ some i
      | none ↦ if identity y == k then some (length xs) else none
    ]
unfolding position
position-append k y [] = ground arith
position-append k y (x ∷ xs) = ground (arith, position-append k y xs)

position-modify :
    (k : WarningIdentity) (w : DocumentWarning) (i : ℕ) (xs : List DocumentWarning)
    → position k (modify i (take_in w) xs) ≡ position k xs
unfolding position
position-modify k w i [] = refl
position-modify k w zero (x ∷ xs) = rw (identity-take_in w x)
position-modify k w (suc i) (x ∷ xs) = rw (position-modify k w i xs)

abbrev IsIndexed : Aggregation → Type 0
IsIndexed s = (k : WarningIdentity) → lookup k s.indices ≡ position k s.aggregated

aggregate_step_lem :
    (s : Aggregation) (w : DocumentWarning)
    → IsIndexed s
    → IsIndexed (aggregate_step s w) × ((aggregate_step s w).aggregated ≡ merge_one w s.aggregated)
unfolding aggregate_step
aggregate_step_lem s w ix = elim (Option-cases (lookup (identity w) s.indices)) [
  | inl e ↦ (
    λ k. ground (
      arith,
      ix k,
      ix (identity w),
      lookup-emplace (identity w) k (length s.aggregated) s.indices,
      position-append k (first_entry w) s.aggregated,
      identity-first_entry w,
    ),
    ground (arith, ix (identity w), merge_one_absent w s.aggregated),
  )
  | inr (i, e) ↦ (
    λ k. ground (arith, ix k, position-modify k w i s.aggregated),
    ground (arith, ix (identity w), merge_one_present w s.aggregated i),
  )
]

-- From an index map that gives each identity's position, the loop merges the warnings one by one.
aggregate_loop-merge_all :
    (ws : List DocumentWarning) (s : Aggregation)
    → IsIndexed s
    → (aggregate_loop s ws).aggregated ≡ merge_all s.aggregated ws
unfolding aggregate_loop merge_all
aggregate_loop-merge_all [] s ix = refl
aggregate_loop-merge_all (w ∷ ws) s ix =
    let (kept, one) = aggregate_step_lem s w ix in
    aggregate_loop-merge_all ws (aggregate_step s w) kept ∙ ap (λ xs. merge_all xs ws) one

pub aggregate_loop_fresh :
    (ws : List DocumentWarning)
    → (aggregate_loop (record { aggregated = []; indices = [] }) ws).aggregated ≡ merge_all [] ws
unfolding position lookup
aggregate_loop_fresh ws = aggregate_loop-merge_all ws _ (λ k. refl)

-- The entry of an identity.
unfoldable pub entry : WarningIdentity → List DocumentWarning → Option DocumentWarning
entry k [] = none
entry k (x ∷ xs) = if identity x == k then some x else entry k xs

-- The entry of an identity behind one more warning of it.
abbrev pub joined : DocumentWarning → Option DocumentWarning → DocumentWarning
joined w none = first_entry w
joined w (some x) = take_in w x

unfoldable pub gather :
    WarningIdentity → Option DocumentWarning → List DocumentWarning → Option DocumentWarning
gather k o [] = o
gather k o (w ∷ ws) = gather k (if identity w == k then some (joined w o) else o) ws

entry-merge_one :
    (k : WarningIdentity) (w : DocumentWarning) (xs : List DocumentWarning)
    → entry k (merge_one w xs)
      ≡ (if identity w == k then some (joined w (entry k xs)) else entry k xs)
unfolding entry merge_one
entry-merge_one k w [] = rw (identity-first_entry w)
entry-merge_one k w (x ∷ xs) = ground (
  arith,
  identity_beq_iff (identity x) (identity w),
  identity_beq_iff (identity x) k,
  identity_beq_iff (identity w) k,
  identity-take_in w x,
  entry-merge_one k w xs,
)

pub entry-merge_all :
    (k : WarningIdentity) (ws acc : List DocumentWarning)
    → entry k (merge_all acc ws) ≡ gather k (entry k acc) ws
unfolding merge_all gather
entry-merge_all k [] acc = refl
entry-merge_all k (w ∷ ws) acc =
    entry-merge_all k ws (merge_one w acc) ∙ ap (λ o. gather k o ws) (entry-merge_one k w acc)

pub identity-settle_page : (w : DocumentWarning) → identity (settle_page w) ≡ identity w
unfolding identity settle_page
identity-settle_page w = elim w.page_ids as (λ ps. identity (settle ps w) ≡ identity w) [
  | [] ↦ refl
  | p ∷ [] ↦ refl
  | p ∷ q ∷ ps ↦ refl
]

entry-settle_page :
    (k : WarningIdentity) (xs : List DocumentWarning)
    → entry k (map settle_page xs) ≡ Option.map settle_page (entry k xs)
unfolding entry
entry-settle_page k [] = refl
entry-settle_page k (x ∷ xs) = ground (arith, identity-settle_page x, entry-settle_page k xs)

-- The entry of an identity in the result comes from the warnings of that identity alone.
pub entry-aggregate_warnings :
    (k : WarningIdentity) (ws : List DocumentWarning)
    → entry k (aggregate_warnings ws) ≡ Option.map settle_page (gather k none ws)
unfolding aggregate_warnings entry
entry-aggregate_warnings k ws =
    entry-settle_page k (aggregate_loop (record { aggregated = []; indices = [] }) ws).aggregated
    ∙ ap (λ xs. Option.map settle_page (entry k xs)) (aggregate_loop_fresh ws)
    ∙ ap (Option.map settle_page) (entry-merge_all k ws [])
