-- ===== src/Common/Utf8/Encoding.antt =====
-- cpp/common/utf8.h: the UTF-8 encoder against the decoding rules of RFC 3629.
use Prim.Native.Nat.{bit_and, bit_or}
use technical_doc_parser.Prelude.{
  ℕ, ◌+◌, ◌-◌, ◌*◌, ◌/◌, ◌%◌, ◌≤◌, ◌≡◌, refl, inl, inr, Bool, true, ◌&&◌, Option, none, some, [],
  ◌∷◌, ◌++◌, arith, leb, if◌then◌else◌, Bool-cases, Text,
}
use technical_doc_parser.Prelude.Bits.{
  mask_three, mask_four, mask_five, mask_six, join_80, join_c0, join_e0, join_f0,
}
use technical_doc_parser.Common.Utf8.{
  is_unicode_scalar_value, encode_scalar, encode_utf8, unicode_replacement_character,
}

-- A continuation byte carries six bits.
abbrev is_continuation : ℕ → Bool
is_continuation b = leb 0x80 b && leb b 0xbf

-- One code point off the front of a byte sequence, as RFC 3629 lays it out: overlong forms,
-- surrogates and values above U+10FFFF are refused.
pub rfc_two : ℕ → Text → Option (ℕ × Text)
rfc_two lead (b ∷ rest) =
    if is_continuation b then some ((lead - 0xc0) * 64 + (b - 0x80), rest) else none
rfc_two lead [] = none

pub rfc_three : ℕ → Text → Option (ℕ × Text)
unfolding is_unicode_scalar_value
rfc_three lead (b ∷ c ∷ rest) =
    let value = (lead - 0xe0) * 4096 + (b - 0x80) * 64 + (c - 0x80) in
    if is_continuation b && is_continuation c && leb 0x800 value && is_unicode_scalar_value value
    then some (value, rest)
    else none
rfc_three lead _ = none

pub rfc_four : ℕ → Text → Option (ℕ × Text)
rfc_four lead (b ∷ c ∷ d ∷ rest) =
    let value = (lead - 0xf0) * 262144 + (b - 0x80) * 4096 + (c - 0x80) * 64 + (d - 0x80) in
    if is_continuation b
      && is_continuation c
      && is_continuation d
      && leb 0x1_0000 value
      && leb value 0x10_ffff
    then some (value, rest)
    else none
rfc_four lead _ = none

pub rfc_decode : Text → Option (ℕ × Text)
unfolding rfc_two rfc_three rfc_four
rfc_decode [] = none
rfc_decode (a ∷ rest) =
    if leb a 0x7f
    then some (a, rest)
    else if leb 0xc2 a && leb a 0xdf
    then rfc_two a rest
    else if leb 0xe0 a && leb a 0xef
    then rfc_three a rest
    else if leb 0xf0 a && leb a 0xf4
    then rfc_four a rest
    else none

-- The encoder's bytes as arithmetic on the code point.
two_bytes : ℕ → Text
two_bytes c = (0xc0 + c / 64 % 32) ∷ (0x80 + c % 64) ∷ []

three_bytes : ℕ → Text
three_bytes c = (0xe0 + c / 4096 % 16) ∷ (0x80 + c / 64 % 64) ∷ (0x80 + c % 64) ∷ []

four_bytes : ℕ → Text
four_bytes c =
    (0xf0 + c / 262144 % 8) ∷ (0x80 + c / 4096 % 64) ∷ (0x80 + c / 64 % 64) ∷ (0x80 + c % 64) ∷ []

continuation_byte : (x : ℕ) → bit_or 0x80 (bit_and x 0x3f) ≡ 0x80 + x % 64
continuation_byte x = rw (mask_six x) (join_80 (x % 64) (omega arith))

lead_two : (x : ℕ) → bit_or 0xc0 (bit_and x 0x1f) ≡ 0xc0 + x % 32
lead_two x = rw (mask_five x) (join_c0 (x % 32) (omega arith))

lead_three : (x : ℕ) → bit_or 0xe0 (bit_and x 0x0f) ≡ 0xe0 + x % 16
lead_three x = rw (mask_four x) (join_e0 (x % 16) (omega arith))

lead_four : (x : ℕ) → bit_or 0xf0 (bit_and x 0x07) ≡ 0xf0 + x % 8
lead_four x = rw (mask_three x) (join_f0 (x % 8) (omega arith))

ruleset byte_laws = (continuation_byte, lead_two, lead_three, lead_four)

encode_scalar_bytes :
    (c : ℕ)
    → encode_scalar c ≡ (
        if leb c 0x7f
        then c ∷ []
        else if leb c 0x7ff
        then two_bytes c
        else if leb c 0xffff
        then three_bytes c
        else four_bytes c)
unfolding encode_scalar two_bytes three_bytes four_bytes
encode_scalar_bytes c = simp byte_laws

rfc_decode_one : (c : ℕ) (rest : Text) → c ≤ 0x7f → rfc_decode (c ∷ rest) ≡ some (c, rest)
unfolding rfc_decode
rfc_decode_one c rest h = ground arith

rfc_decode-two :
    (c : ℕ) (rest : Text) → 0x80 ≤ c → c ≤ 0x7ff → rfc_decode (two_bytes c ++ rest) ≡ some (c, rest)
unfolding rfc_decode two_bytes
rfc_decode-two c rest lo hi = ground arith

rfc_decode-three :
    (c : ℕ) (rest : Text)
    → 0x800 ≤ c
    → c ≤ 0xffff
    → is_unicode_scalar_value c ≡ true
    → rfc_decode (three_bytes c ++ rest) ≡ some (c, rest)
unfolding rfc_decode three_bytes
rfc_decode-three c rest lo hi s = ground arith

rfc_decode-four :
    (c : ℕ) (rest : Text)
    → 0x1_0000 ≤ c
    → c ≤ 0x10_ffff
    → rfc_decode (four_bytes c ++ rest) ≡ some (c, rest)
unfolding rfc_decode four_bytes
rfc_decode-four c rest lo hi = ground arith

-- A scalar value is written as the bytes that RFC 3629 reads back as it, whatever follows them.
pub rfc_decode-encode_scalar :
    (c : ℕ) (rest : Text)
    → is_unicode_scalar_value c ≡ true
    → rfc_decode (encode_scalar c ++ rest) ≡ some (c, rest)
unfolding is_unicode_scalar_value
rfc_decode-encode_scalar c rest h = rw (encode_scalar_bytes c) (
    ground (
      arith,
      rfc_decode_one c rest,
      rfc_decode-two c rest,
      rfc_decode-three c rest,
      rfc_decode-four c rest,
    ))

-- The bytes that `encode_utf8` writes are read back by the decoding rules of RFC 3629 as the code
-- point, or as U+FFFD where it is not a Unicode scalar value, with the bytes that follow left over.
pub rfc_decode-encode_utf8 :
    (codepoint : ℕ) (rest : Text)
    → rfc_decode (encode_utf8 codepoint ++ rest)
      ≡ some (
        (if is_unicode_scalar_value codepoint then codepoint else unicode_replacement_character),
        rest,
      )
unfolding encode_utf8
rfc_decode-encode_utf8 codepoint rest = elim (Bool-cases (is_unicode_scalar_value codepoint)) [
  | inl ok ↦ rw ok (rfc_decode-encode_scalar codepoint rest ok)
  | inr bad ↦ rw bad (rfc_decode-encode_scalar unicode_replacement_character rest refl)
]
