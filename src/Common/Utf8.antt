-- ===== src/Common/Utf8.antt =====
-- cpp/common/utf8.h: UTF-16 code units to code points, and code points to UTF-8 bytes. A
-- `std::uint32_t` is a number below 2 ^ 32, and the sum of a surrogate pair wraps.
pub mod Decoding
pub mod Encoding
pub mod Tests
use Prim.Native.Nat.{bit_and, bit_or}
use technical_doc_parser.Prelude.{
  ℕ, ◌+◌, ◌-◌, ◌*◌, ◌/◌, ◌%◌, ◌^◌, Bool, true, false, not, ◌&&◌, List, [], ◌∷◌, leb, if◌then◌else◌,
  Text,
}

abbrev pub unicode_replacement_character : ℕ
unicode_replacement_character = 0xfffd

pub record DecodedUtf16CodePoint : Type 0 where
  pub value : ℕ
  pub code_units : ℕ
  pub valid : Bool

-- The member initialisers of `DecodedUtf16CodePoint`.
abbrev pub undecoded : DecodedUtf16CodePoint
undecoded = record { value = unicode_replacement_character; code_units = 1; valid = false }

unfoldable pub is_high_surrogate : ℕ → Bool
is_high_surrogate value = leb 0xd800 value && leb value 0xdbff

unfoldable pub is_low_surrogate : ℕ → Bool
is_low_surrogate value = leb 0xdc00 value && leb value 0xdfff

unfoldable pub is_unicode_scalar_value : ℕ → Bool
unfolding is_high_surrogate is_low_surrogate
is_unicode_scalar_value value =
    leb value 0x10ffff && not (is_high_surrogate value) && not (is_low_surrogate value)

-- x << k and x >> k on 32 bits.
abbrev pub shl : ℕ → ℕ → ℕ
shl x k = x * 2 ^ k % 2 ^ 32

abbrev pub shr : ℕ → ℕ → ℕ
shr x k = x / 2 ^ k

unfoldable pub decode_utf16_code_point : ℕ → ℕ → DecodedUtf16CodePoint
unfolding is_high_surrogate is_low_surrogate is_unicode_scalar_value
decode_utf16_code_point first following =
    if is_high_surrogate first
    then (if not (is_low_surrogate following) then undecoded else record {
      value = (0x1_0000 + shl (first - 0xd800) 10 + (following - 0xdc00)) % 2 ^ 32;
      code_units = 2;
      valid = true;
    })
    else if not (is_unicode_scalar_value first)
    then undecoded
    else record { value = first; code_units = 1; valid = true }

-- The body of `encodeUtf8` behind its first statement.
unfoldable pub encode_scalar : ℕ → Text
encode_scalar codepoint =
    if leb codepoint 0x7f
    then codepoint ∷ []
    else if leb codepoint 0x7ff
    then bit_or 0xc0 (bit_and (shr codepoint 6) 0x1f) ∷ bit_or 0x80 (bit_and codepoint 0x3f) ∷ []
    else if leb codepoint 0xffff
    then bit_or 0xe0 (bit_and (shr codepoint 12) 0x0f)
      ∷ bit_or 0x80 (bit_and (shr codepoint 6) 0x3f)
      ∷ bit_or 0x80 (bit_and codepoint 0x3f)
      ∷ []
    else bit_or 0xf0 (bit_and (shr codepoint 18) 0x07)
      ∷ bit_or 0x80 (bit_and (shr codepoint 12) 0x3f)
      ∷ bit_or 0x80 (bit_and (shr codepoint 6) 0x3f)
      ∷ bit_or 0x80 (bit_and codepoint 0x3f)
      ∷ []

unfoldable pub encode_utf8 : ℕ → Text
unfolding is_unicode_scalar_value encode_scalar
encode_utf8 codepoint =
    encode_scalar
      (if not (is_unicode_scalar_value codepoint) then unicode_replacement_character else codepoint)
