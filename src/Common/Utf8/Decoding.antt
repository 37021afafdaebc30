-- ===== src/Common/Utf8/Decoding.antt =====
-- cpp/common/utf8.h: surrogate pairs.
use technical_doc_parser.Prelude.{ℕ, ◌+◌, ◌-◌, ◌/◌, ◌%◌, ◌≤◌, ◌≡◌, true, arith, ◌&&◌, if◌then◌else◌}
use technical_doc_parser.Common.Utf8.{
  is_high_surrogate, is_low_surrogate, is_unicode_scalar_value, decode_utf16_code_point,
  unicode_replacement_character,
}

-- The surrogate pair that the Unicode standard assigns to a supplementary code point.
abbrev pub high_surrogate : ℕ → ℕ
high_surrogate c = 0xd800 + (c - 0x1_0000) / 1024

abbrev pub low_surrogate : ℕ → ℕ
low_surrogate c = 0xdc00 + (c - 0x1_0000) % 1024

-- The pair of a code point above U+FFFF is read as that code point, in two units.
pub decode_utf16_code_point-pair :
    (c : ℕ)
    → is_unicode_scalar_value c ≡ true
    → 0x1_0000 ≤ c
    → decode_utf16_code_point (high_surrogate c) (low_surrogate c)
      ≡ record { value = c; code_units = 2; valid = true }
unfolding decode_utf16_code_point
decode_utf16_code_point-pair c h big = ground arith

-- Whatever the units, the value is a Unicode scalar value, U+FFFD where nothing valid was read; two
-- units are taken exactly for a pair of a high and a low surrogate, and otherwise one.
pub decode_utf16_code_point_scalar :
    (first following : ℕ)
    → let result = decode_utf16_code_point first following in
      (is_unicode_scalar_value result.value ≡ true)
      × ((if result.valid then result.value else unicode_replacement_character) ≡ result.value)
      × (result.code_units
          ≡ (if is_high_surrogate first && is_low_surrogate following then 2 else 1))
unfolding decode_utf16_code_point
decode_utf16_code_point_scalar first following = (ground arith, ground arith, ground arith)
