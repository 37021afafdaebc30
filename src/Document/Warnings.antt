-- ===== src/Document/Warnings.antt =====
-- cpp/document/warning_aggregator.cpp, and `DocumentWarning` of cpp/document/parsed_document.h. A
-- `std::map<std::string, std::string>` is its list of entries in key order.
pub mod Merge
pub mod Occurrences
pub mod Pages
pub mod Order
pub mod Tests
use technical_doc_parser.Prelude.{
  ℕ, zero, suc, ◌+◌, ◌-◌, ◌^◌, ◌≡◌, ◌↔◌, Bool, true, false, not, ◌&&◌, Option, none, some, List, [],
  ◌∷◌, ◌++◌, map, arith, ltb, if◌then◌else◌, any, Text, Eq, ◌==◌, text_eq, nat_eq, list_beq,
  list_beq_iff, pair_beq, pair_beq_iff, length,
}
use technical_doc_parser.Prelude.Dict.{lookup, emplace}

abbrev pub Details : Type 0
Details = List (Text × Text)

pub record DocumentWarning : Type 0 where
  pub code : Text
  pub message : Text
  pub stage : Text
  pub page_id : Text
  pub block_id : Text
  pub details : Details
  pub occurrence_count : ℕ
  pub page_ids : List Text

pub record WarningIdentity : Type 0 where
  pub code : Text
  pub message : Text
  pub stage : Text
  pub block_id : Text
  pub details : Details

instance abbrev entry_eq : Eq (Text × Text)
entry_eq = record { agree = pair_beq; agree_iff = pair_beq_iff }

abbrev pub identity_beq : WarningIdentity → WarningIdentity → Bool
identity_beq a b =
    a.code == b.code
    && a.message == b.message
    && a.stage == b.stage
    && a.block_id == b.block_id
    && list_beq a.details b.details

pub identity_beq_iff : (a b : WarningIdentity) → (identity_beq a b ≡ true) ↔ (a ≡ b)
identity_beq_iff a b = ground (
  arith,
  list_beq_iff a.code b.code,
  list_beq_iff a.message b.message,
  list_beq_iff a.stage b.stage,
  list_beq_iff a.block_id b.block_id,
  list_beq_iff a.details b.details,
)

instance abbrev pub identity_eq : Eq WarningIdentity
identity_eq = record { agree = identity_beq; agree_iff = identity_beq_iff }

unfoldable pub identity : DocumentWarning → WarningIdentity
identity w = record {
  code = w.code;
  message = w.message;
  stage = w.stage;
  block_id = w.block_id;
  details = w.details;
}

abbrev pub is_empty : Text → Bool
is_empty [] = true
is_empty (b ∷ text) = false

-- `std::find` over the page ids.
abbrev pub contains : List Text → Text → Bool
contains page_ids page_id = any (λ p. p == page_id) page_ids

unfoldable pub append_page : List Text → Text → List Text
append_page page_ids page_id =
    if not (is_empty page_id) && not (contains page_ids page_id)
    then page_ids ++ page_id ∷ []
    else page_ids

unfoldable pub append_each : List Text → List Text → List Text
unfolding append_page
append_each page_ids [] = page_ids
append_each page_ids (p ∷ more) = append_each (append_page page_ids p) more

unfoldable pub append_pages : List Text → DocumentWarning → List Text
unfolding append_each
append_pages page_ids w = append_each (append_page page_ids w.page_id) w.page_ids

-- `std::numeric_limits<std::size_t>::max()`
abbrev pub size_max : ℕ
size_max = 2 ^ 64 - 1

unfoldable pub saturated_add : ℕ → ℕ → ℕ
saturated_add left right = if ltb (size_max - left) right then size_max else left + right

-- The entry of the first warning with its identity, and an entry that takes in one more warning.
unfoldable pub first_entry : DocumentWarning → DocumentWarning
unfolding append_pages
first_entry w = record w { page_id = []; page_ids = append_pages [] w }

unfoldable pub take_in : DocumentWarning → DocumentWarning → DocumentWarning
unfolding append_pages saturated_add
take_in w value = record value {
  occurrence_count = saturated_add value.occurrence_count w.occurrence_count;
  page_ids = append_pages value.page_ids w;
}

abbrev pub modify :
    ℕ → (DocumentWarning → DocumentWarning) → List DocumentWarning → List DocumentWarning
modify i f [] = []
modify zero f (x ∷ xs) = f x ∷ xs
modify (suc i) f (x ∷ xs) = x ∷ modify i f xs

pub record Aggregation : Type 0 where
  pub aggregated : List DocumentWarning
  pub indices : List (WarningIdentity × ℕ)

-- The body of the first loop.
unfoldable pub aggregate_step : Aggregation → DocumentWarning → Aggregation
unfolding first_entry take_in identity
aggregate_step s w = elim (lookup (identity w) s.indices) [
  | none ↦ record {
    aggregated = s.aggregated ++ first_entry w ∷ [];
    indices = emplace (identity w) (length s.aggregated) s.indices;
  }
  | some i ↦ record s { aggregated = modify i (take_in w) s.aggregated }
]

unfoldable pub aggregate_loop : Aggregation → List DocumentWarning → Aggregation
aggregate_loop s [] = s
aggregate_loop s (w ∷ ws) = aggregate_loop (aggregate_step s w) ws

-- The body of the second loop: a single page becomes the page of the warning.
abbrev pub settle : List Text → DocumentWarning → DocumentWarning
settle (p ∷ []) w = record w { page_id = p; page_ids = [] }
settle _ w = w

unfoldable pub settle_page : DocumentWarning → DocumentWarning
settle_page w = settle w.page_ids w

unfoldable pub aggregate_warnings : List DocumentWarning → List DocumentWarning
unfolding aggregate_loop settle_page
aggregate_warnings warnings =
    map settle_page (aggregate_loop (record { aggregated = []; indices = [] }) warnings).aggregated
