-- ===== src/Pipeline/TextQuality.antt =====
-- cpp/pipeline/text_quality.cpp: whether the native text of a page can be used. A std::size_t counts
-- bytes of a text in memory and does not wrap around here.
pub mod Policy
pub mod Merge
use technical_doc_parser.Prelude.{
  ℕ, zero, suc, ◌+◌, Bool, true, false, ◌&&◌, ◌||◌, not, Option, none, some, List, [], ◌∷◌, ◌++◌,
  Text, bytes, ltb, leb, nat_beq, length, any, count, if◌then◌else◌,
}
use technical_doc_parser.Prelude.Int.{ℤ, pos, ltb_ℤ}
use technical_doc_parser.Prelude.Double.{Double, nought, of_nat, le, min, max, clamp}
use technical_doc_parser.Prelude.Sort.{stable_sort}
use technical_doc_parser.Document.Text.{
  BBox, TextSource, TextLine, PageText, NativeTextExtractionSignals,
}
use technical_doc_parser.Image.Cache.{PageArtifact}

pub data NativeTextAction : Type 0 where
  use_native use_ocr merge_ocr : NativeTextAction

abbrev pub native_text_action_name : NativeTextAction → Text
native_text_action_name use_native = bytes "use_native"
native_text_action_name use_ocr = bytes "use_ocr"
native_text_action_name merge_ocr = bytes "merge_ocr"

pub record NativeTextQuality {ℓ} (D : Type ℓ) : Type ℓ where
  pub action : NativeTextAction
  pub non_whitespace_bytes : ℕ
  pub suspicious_bytes : ℕ
  pub control_codepoints : ℕ
  pub distinct_control_codepoints : ℕ
  pub damaging_control_codepoints : ℕ
  pub distinct_damaging_control_codepoints : ℕ
  pub damaging_control_ratio : D
  pub vertical_coverage : D
  pub reason : Text

pub record NativeTextQualityConfig {ℓ} (D : Type ℓ) : Type ℓ where
  pub sparse_text_byte_threshold : ℕ
  pub sparse_vertical_coverage_threshold : D
  pub suspicious_byte_ratio_threshold : D
  pub damaging_control_minimum : ℕ
  pub severe_damaging_control_ratio_threshold : D
  pub diverse_damaging_control_ratio_threshold : D
  pub diverse_damaging_control_type_threshold : ℕ
  pub duplicate_overlap_threshold : D

-- `std::isspace` in the "C" locale
abbrev pub is_space : ℕ → Bool
is_space value = nat_beq value 32 || leb 9 value && leb value 13

abbrev pub is_suspicious : ℕ → Bool
is_suspicious value = ltb value 32 && not (is_space value) || nat_beq value 127

-- The loop of `find` for the bytes EF BF BD: how often they occur. The bytes differ from each other,
-- so that the search behind an occurrence and behind its first byte are the same.
unfoldable pub replacements : Text → ℕ
replacements [] = 0
replacements (a ∷ text) =
    let rest = replacements text in
    if nat_beq a 239
    then elim text [
      | b ∷ c ∷ _ ↦ if nat_beq b 191 && nat_beq c 189 then suc rest else rest
      | _ ↦ rest
    ]
    else rest

abbrev pub is_benign_control_codepoint : ℕ → Bool
is_benign_control_codepoint codepoint =
    nat_beq codepoint 2 || nat_beq codepoint 9 || nat_beq codepoint 10 || nat_beq codepoint 13

-- `control_codepoints` and the three numbers behind it.
pub record Controls : Type 0 where
  pub all : ℕ
  pub distinct : ℕ
  pub damaging : ℕ
  pub distinct_damaging : ℕ

unfoldable pub count_controls : ℕ → List ℕ → Controls → Controls
count_controls codepoint [] c = c
count_controls codepoint (n ∷ counts) c =
    let one = if ltb 0 n then 1 else 0 in
    let harm = not (is_benign_control_codepoint codepoint) in
    count_controls (suc codepoint) counts (record {
      all = c.all + n;
      distinct = c.distinct + one;
      damaging = c.damaging + (if harm then n else 0);
      distinct_damaging = c.distinct_damaging + (if harm then one else 0);
    })

module _ {ℓ} {D : Type ℓ} ⦃d : Double D⦄ where
  open d use {lit, of_int, add, sub, mul, div, lt, eq}

  abbrev pub default_config : NativeTextQualityConfig D
  default_config = record {
    sparse_text_byte_threshold = 256;
    sparse_vertical_coverage_threshold = lit 12 100;
    suspicious_byte_ratio_threshold = lit 2 100;
    damaging_control_minimum = 8;
    severe_damaging_control_ratio_threshold = lit 20 100;
    diverse_damaging_control_ratio_threshold = lit 5 100;
    diverse_damaging_control_type_threshold = 4;
    duplicate_overlap_threshold = lit 5 10;
  }

  unfoldable pub bbox_area : BBox D → D
  bbox_area b = mul (max nought (sub b.x1 b.x0)) (max nought (sub b.y1 b.y0))

  unfoldable pub overlap_over_smaller_area : BBox D → BBox D → D
  unfolding bbox_area
  overlap_over_smaller_area a b =
      let width = max nought (sub (min a.x1 b.x1) (max a.x0 b.x0)) in
      let height = max nought (sub (min a.y1 b.y1) (max a.y0 b.y0)) in
      let denominator = min (bbox_area a) (bbox_area b) in
      if le denominator nought then nought else div (mul width height) denominator

  -- The vertical intervals of the lines, cut to the page.
  unfoldable pub intervals : D → List (TextLine D) → List (D × D)
  intervals height [] = []
  intervals height (line ∷ lines) =
      let y0 = clamp line.bbox.y0 nought height in
      let y1 = clamp line.bbox.y1 nought height in
      let rest = intervals height lines in if lt y0 y1 then (y0, y1) ∷ rest else rest

  -- The operator < of `std::pair`
  abbrev pub pair_lt : D × D → D × D → Bool
  pair_lt (a, b) (c, e) = lt a c || not (lt c a) && lt b e

  -- The loop over the sorted intervals: what is covered, and the interval that grows.
  unfoldable pub cover : List (D × D) → D → D → D → D
  cover [] covered start end = add covered (sub end start)
  cover ((a, b) ∷ rest) covered start end =
      let joined = cover rest covered start (max end b) in
      let apart = cover rest (add covered (sub end start)) a b in if le a end then joined else apart

  unfoldable pub vertical_coverage : PageArtifact → PageText D → D
  unfolding cover intervals stable_sort
  vertical_coverage page text =
      let height = of_int page.height in
      if not (ltb_ℤ (pos 0) page.height)
      then nought
      else elim (stable_sort pair_lt (intervals height text.lines)) [
        | [] ↦ nought
        | (a, b) ∷ rest ↦ div (cover rest nought a b) height
      ]

  unfoldable pub is_duplicate_line : TextLine D → List (TextLine D) → D → Bool
  unfolding overlap_over_smaller_area
  is_duplicate_line candidate existing threshold =
      any (λ line. le threshold (overlap_over_smaller_area candidate.bbox line.bbox)) existing
