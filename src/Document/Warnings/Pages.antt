-- ===== src/Document/Warnings/Pages.antt =====
-- cpp/document/warning_aggregator.cpp: the pages of the result, and its order.
use mathlib.Core.Option
use technical_doc_parser.Prelude.{
  ◌≡◌, refl, ap, ◌∙◌, Bool, false, ◌&&◌, ◌||◌, Option, none, some, List, [], ◌∷◌, ◌++◌, arith, ◌==◌,
  any, Text, text_eq, nat_eq, list_beq_iff, Bool-cases, inl, inr,
}
use technical_doc_parser.Document.Warnings.{
  DocumentWarning, WarningIdentity, identity_eq, identity, first_entry, take_in, settle_page,
  settle, aggregate_warnings, contains, is_empty, append_page, append_each, append_pages,
}
use technical_doc_parser.Document.Warnings.Merge.{entry, gather, entry-aggregate_warnings}

-- A warning lies on a page by either of its two page fields.
unfoldable pub on_page : Text → DocumentWarning → Bool
on_page p w = w.page_id == p || contains w.page_ids p

abbrev pub found : Text → Option DocumentWarning → Bool
found p none = false
found p (some x) = on_page p x

contains-append :
    (p q : Text) (ps : List Text) → contains (ps ++ q ∷ []) p ≡ (contains ps p || q == p)
contains-append p q [] = ground arith
contains-append p q (r ∷ ps) = ground (arith, contains-append p q ps)

contains-append_page :
    (p q : Text) (ps : List Text)
    → is_empty p ≡ false
    → contains (append_page ps q) p ≡ (contains ps p || q == p)
unfolding append_page
contains-append_page p q ps h = elim (Bool-cases (q == p)) [
  | inl same ↦
      let e : q ≡ p = (list_beq_iff q p).0 same in
      rw (same, e, h) (ground (arith, contains-append p p ps, (list_beq_iff p p).1 refl))
  | inr other ↦ rw other (ground (arith, contains-append p q ps))
]

contains-append_each :
    (p : Text) (ps more : List Text)
    → is_empty p ≡ false
    → contains (append_each ps more) p ≡ (contains ps p || contains more p)
unfolding append_each
contains-append_each p ps [] h = ground arith
contains-append_each p ps (q ∷ more) h =
    ground (arith, contains-append_each p (append_page ps q) more h, contains-append_page p q ps h)

contains-append_pages :
    (p : Text) (ps : List Text) (w : DocumentWarning)
    → is_empty p ≡ false
    → contains (append_pages ps w) p ≡ (contains ps p || on_page p w)
unfolding append_pages on_page
contains-append_pages p ps w h = ground (
  arith,
  contains-append_each p (append_page ps w.page_id) w.page_ids h,
  contains-append_page p w.page_id ps h,
)

-- An entry of the first loop keeps its pages in `page_ids`.
abbrev listed : Text → Option DocumentWarning → Bool
listed p none = false
listed p (some x) = contains x.page_ids p

abbrev relevant : WarningIdentity → Text → DocumentWarning → Bool
relevant k p w = identity w == k && on_page p w

listed-gather :
    (k : WarningIdentity) (p : Text) (ws : List DocumentWarning) (o : Option DocumentWarning)
    → is_empty p ≡ false
    → listed p (gather k o ws) ≡ (listed p o || any (relevant k p) ws)
unfolding gather first_entry take_in
listed-gather k p [] o h = ground arith
listed-gather k p (w ∷ ws) none h = ground (
  arith,
  listed-gather k p ws none h,
  listed-gather k p ws (some (first_entry w)) h,
  contains-append_pages p [] w h,
)
listed-gather k p (w ∷ ws) (some x) h = ground (
  arith,
  listed-gather k p ws (some x) h,
  listed-gather k p ws (some (take_in w x)) h,
  contains-append_pages p x.page_ids w h,
)

-- Entries of the first loop have no `page_id`.
abbrev NoPage : Option DocumentWarning → Type 0
NoPage none = Unit {0}
NoPage (some x) = x.page_id ≡ []

gather-NoPage :
    (k : WarningIdentity) (ws : List DocumentWarning) (o : Option DocumentWarning)
    → NoPage o
    → NoPage (gather k o ws)
unfolding gather first_entry take_in
gather-NoPage k [] o h = h
gather-NoPage k (w ∷ ws) none h =
    ground (arith, gather-NoPage k ws none tt, gather-NoPage k ws (some (first_entry w)) refl)
gather-NoPage k (w ∷ ws) (some x) h =
    ground (arith, gather-NoPage k ws (some x) h, gather-NoPage k ws (some (take_in w x)) h)

settled_case :
    (p : Text) (w : DocumentWarning) (ps : List Text)
    → is_empty p ≡ false
    → w.page_id ≡ []
    → w.page_ids ≡ ps
    → on_page p (settle ps w) ≡ contains ps p
unfolding on_page
settled_case [] w ps h e l = cc
settled_case (b ∷ p) w [] h e l = rw (e, l)
settled_case (b ∷ p) w (q ∷ []) h e l = refl
settled_case (b ∷ p) w (q ∷ r ∷ ps) h e l = rw (e, l)

settled_pages :
    (p : Text) (w : DocumentWarning)
    → is_empty p ≡ false
    → w.page_id ≡ []
    → on_page p (settle_page w) ≡ contains w.page_ids p
unfolding settle_page
settled_pages p w h e = settled_case p w w.page_ids h e refl

found-settled :
    (p : Text) (o : Option DocumentWarning)
    → is_empty p ≡ false
    → NoPage o
    → found p (Option.map settle_page o) ≡ listed p o
found-settled p none h e = refl
found-settled p (some w) h e = settled_pages p w h e

-- For every identity and every page id that is not empty, the entry of the identity in the result
-- lies on the page exactly if some warning of that identity does.
pub pages-aggregate_warnings :
    (k : WarningIdentity) (p : Text) (ws : List DocumentWarning)
    → is_empty p ≡ false
    → found p (entry k (aggregate_warnings ws)) ≡ any (λ w. identity w == k && on_page p w) ws
pages-aggregate_warnings k p ws h =
    ap (found p) (entry-aggregate_warnings k ws)
    ∙ found-settled p (gather k none ws) h (gather-NoPage k ws none tt)
    ∙ listed-gather k p ws none h
