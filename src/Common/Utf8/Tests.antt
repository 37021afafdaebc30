-- ===== src/Common/Utf8/Tests.antt =====
-- Runs of cpp/common/utf8.h, and its theorems at concrete inputs.
use technical_doc_parser.Prelude.{◌≡◌, refl, some, [], ◌∷◌, ◌++◌, true, arith}
use technical_doc_parser.Common.Utf8.{encode_utf8, decode_utf16_code_point, is_unicode_scalar_value}
use technical_doc_parser.Common.Utf8.Encoding.{rfc_decode, rfc_decode-encode_utf8}
use technical_doc_parser.Common.Utf8.Decoding.{
  decode_utf16_code_point-pair, decode_utf16_code_point_scalar,
}

-- The euro sign.
euro_sign : encode_utf8 0x20ac ≡ 0xe2 ∷ 0x82 ∷ 0xac ∷ []
unfolding encode_utf8
euro_sign = refl

rfc_decode-encode_utf8_example : rfc_decode (encode_utf8 0x20ac ++ 65 ∷ []) ≡ some (0x20ac, 65 ∷ [])
unfolding is_unicode_scalar_value
rfc_decode-encode_utf8_example = rfc_decode-encode_utf8 0x20ac (65 ∷ [])

decode_utf16_code_point-pair_example :
    decode_utf16_code_point 0xd83d 0xde00
    ≡ record { value = 0x1_f600; code_units = 2; valid = true }
unfolding is_unicode_scalar_value
decode_utf16_code_point-pair_example = decode_utf16_code_point-pair 0x1_f600 refl (omega arith)

decode_utf16_code_point_scalar_example :
    is_unicode_scalar_value (decode_utf16_code_point 0xd83d 0x41).value ≡ true
unfolding decode_utf16_code_point
decode_utf16_code_point_scalar_example = (decode_utf16_code_point_scalar 0xd83d 0x41).0
