-- ===== src/Pipeline/Chain/Names.antt =====
-- cpp/pipeline/pipeline_service_factory.cpp: the names of a chain are found again in its joined name.
use technical_doc_parser.Prelude.{
  ℕ, zero, suc, ◌+◌, ◌≤◌, ◌≡◌, refl, sym, ap, ◌∙◌, Bool, true, false, ◌&&◌, ◌||◌, not, Option, none,
  some, List, [], ◌∷◌, ◌++◌, Text, bytes, text_eq, ◌==◌, length, length-append, take, drop, any,
  all, arith, if◌then◌else◌,
}
use mathlib.Core.List.{append_assoc, append-nil}
use technical_doc_parser.Pipeline.Registry.{is_empty}
use technical_doc_parser.Pipeline.Chain.{
  join_onto, join_names, find_separator, contains_loop, contains_backend,
}

abbrev is_none : Option ℕ → Bool
is_none none = true
is_none (some n) = false

-- A name that is not empty and holds no separator.
abbrev pub is_plain : Text → Bool
is_plain name = not (is_empty name) && is_none (find_separator name)

-- The names with a separator in front of each.
abbrev tail_of : List Text → Text
tail_of [] = []
tail_of (name ∷ names) = bytes "->" ++ (name ++ tail_of names)

join_onto_lem :
    (c : ℕ) (joined : Text) (names : List Text)
    → join_onto (bytes "->") (c ∷ joined) names ≡ (c ∷ joined) ++ tail_of names
unfolding join_onto
join_onto_lem c joined [] = sym (append-nil (c ∷ joined))
join_onto_lem c joined (name ∷ names) =
    join_onto_lem c (joined ++ bytes "->" ++ name) names
    ∙ append_assoc (c ∷ (joined ++ bytes "->")) name (tail_of names)
    ∙ append_assoc (c ∷ joined) (bytes "->") (name ++ tail_of names)

join_names_lem :
    (name : Text) (names : List Text)
    → is_plain name ≡ true
    → join_names (name ∷ names) ≡ name ++ tail_of names
unfolding join_names join_onto
join_names_lem [] names plain = cc
join_names_lem (c ∷ name) names plain = join_onto_lem c name names

find_separator_lem :
    (name rest : Text)
    → is_none (find_separator name) ≡ true
    → find_separator (name ++ (bytes "->" ++ rest)) ≡ some (length name)
unfolding find_separator
find_separator_lem [] rest plain = refl
find_separator_lem (c ∷ []) rest plain = ground arith
find_separator_lem (c ∷ e ∷ t) rest plain = ground (arith, plain, find_separator_lem (e ∷ t) rest)

take_all : (xs ys : Text) → take (length xs) (xs ++ ys) ≡ xs
take_all [] ys = refl
take_all (x ∷ xs) ys = ap (◌∷◌ x) (take_all xs ys)

suc_two : (n : ℕ) → suc n + 2 ≡ suc (n + 2)
suc_two n = omega arith

drop_all : (xs ys : Text) (a b : ℕ) → drop (length xs + 2) (xs ++ (a ∷ b ∷ ys)) ≡ ys
drop_all [] ys a b = refl
drop_all (x ∷ xs) ys a b =
    ap (λ n. drop n ((x ∷ xs) ++ (a ∷ b ∷ ys))) (suc_two (length xs)) ∙ drop_all xs ys a b

all_cons :
    (name : Text) (names : List Text)
    → all is_plain (name ∷ names) ≡ true
    → (is_plain name ≡ true) × (all is_plain names ≡ true)
all_cons name names h = ground (arith, h)

plain_none : (name : Text) → is_plain name ≡ true → find_separator name ≡ none
plain_none name h = ground (arith, h)

is_plain_none : (name : Text) → is_plain name ≡ true → is_none (find_separator name) ≡ true
is_plain_none name h = ground (arith, h)

or_false : (b : Bool) → b ≡ (b || false)
or_false b = ground arith

last_loop :
    (fuel : ℕ) (name backend : Text)
    → find_separator name ≡ none
    → contains_loop (suc fuel) name backend ≡ (name == backend)
unfolding contains_loop
last_loop fuel name backend h = rw (h, contains_loop) refl

next_loop :
    (fuel n : ℕ) (t backend : Text)
    → find_separator t ≡ some n
    → contains_loop (suc fuel) t backend
      ≡ (if take n t == backend then true else contains_loop fuel (drop (n + 2) t) backend)
unfolding contains_loop
next_loop fuel n t backend h = rw (h, contains_loop) refl

if_or : (a b : Bool) → (if a then true else b) ≡ (a || b)
if_or a b = ground arith

contains_loop_lem :
    (fuel : ℕ) (name : Text) (names : List Text) (backend : Text)
    → length names ≤ fuel
    → all is_plain (name ∷ names) ≡ true
    → contains_loop (suc fuel) (name ++ tail_of names) backend
      ≡ any (λ other. other == backend) (name ∷ names)
unfolding contains_loop
contains_loop_lem fuel name [] backend enough plain =
    let (p, ps) = all_cons name [] plain in
    ap (λ t. contains_loop (suc fuel) t backend) (append-nil name)
    ∙ last_loop fuel name backend (plain_none name p)
    ∙ or_false (name == backend)
contains_loop_lem zero name (other ∷ names) backend enough plain = ground (arith, enough)
contains_loop_lem (suc fuel) name (other ∷ names) backend enough plain =
    let (p, ps) = all_cons name (other ∷ names) plain in
    let rest = other ++ tail_of names in
    next_loop (suc fuel) (length name) (name ++ (bytes "->" ++ rest)) backend
      (find_separator_lem name rest (is_plain_none name p))
    ∙ ap
        (λ t.
          if t == backend
          then true
          else contains_loop (suc fuel) (drop (length name + 2) (name ++ (bytes "->" ++ rest)))
              backend)
        (take_all name (bytes "->" ++ rest))
    ∙ ap (λ t. if name == backend then true else contains_loop (suc fuel) t backend)
        (drop_all name rest 45 62)
    ∙ ap (λ b. if name == backend then true else b)
        (contains_loop_lem fuel other names backend (omega (arith, enough)) ps)
    ∙ if_or (name == backend) (any (λ n. n == backend) (other ∷ names))

length-tail_of : (names : List Text) → length names ≤ length (tail_of names)
length-tail_of [] = omega arith
length-tail_of (name ∷ names) =
    omega (arith, length-tail_of names, length-append name (tail_of names))

-- In the joined name of one or more names that are not empty and hold no separator, exactly these names
-- are contained.
pub contains_backend-join_names :
    (name : Text) (names : List Text) (backend : Text)
    → all is_plain (name ∷ names) ≡ true
    → contains_backend (join_names (name ∷ names)) backend
      ≡ any (λ other. other == backend) (name ∷ names)
unfolding contains_backend
contains_backend-join_names name names backend plain =
    rw (join_names_lem name names (all_cons name names plain).0) (
      contains_loop_lem (length (name ++ tail_of names)) name names backend
        (omega (arith, length-tail_of names, length-append name (tail_of names))) plain)
