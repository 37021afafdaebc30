-- ===== src/Common/Sha256/Digest.antt =====
-- cpp/common/file_fingerprint.cpp: the digest of a message that arrives in pieces,
-- against the definition of SHA-256.
use mathlib.Core.Path.{ap₂}
use technical_doc_parser.Prelude.{
  ℕ, ◌+◌, ◌-◌, ◌*◌, ◌%◌, ◌^◌, ◌<◌, ◌≡◌, refl, sym, ap, ◌∙◌, List, [], ◌∷◌, ◌++◌, arith, Text,
  length, replicate, length-append, length-take, take,
}
use technical_doc_parser.Common.Sha256.Transform.{initial_state}
use technical_doc_parser.Common.Sha256.Buffer.{
  View, IsBuffer, view, absorb, absorb_all, absorb_all-append,
}
use technical_doc_parser.Common.Sha256.Streaming.{view-update}
use technical_doc_parser.Common.Sha256.Padding.{big_endian, finish_state-absorb}
use technical_doc_parser.Common.Sha256.{Sha256, fresh, finish, hex_state, update, finish_state}

-- FIPS 180-4, 5.1.1: a one bit, zeros up to eight bytes below a multiple of 64, and the number of
-- bits of the message in 64 bits.
unfoldable pub padding : ℕ → List ℕ
unfolding big_endian
padding size = 0x80 ∷ (replicate ((119 - size % 64) % 64) 0 ++ big_endian 8 (size * 8 % 2 ^ 64))

-- The digest of a whole message by its definition.
unfoldable pub sha256 : List ℕ → Text
unfolding padding
sha256 message = hex_state (absorb_all (initial_state, []) (message ++ padding (length message))).0

-- A message that arrives in pieces.
unfoldable pub update_all : List (List ℕ) → Sha256 → Sha256
update_all [] s = s
update_all (piece ∷ pieces) s = update_all pieces (update piece s)

-- The bytes of the pieces.
unfoldable pub join : List (List ℕ) → List ℕ
join [] = []
join (piece ∷ pieces) = piece ++ join pieces

fresh-IsBuffer : IsBuffer fresh
fresh-IsBuffer = record { block_full = refl; room = omega arith }

waiting-absorb_all :
    (bytes : List ℕ) (v : View)
    → length v.1 < 64
    → length (absorb_all v bytes).1 ≡ (length v.1 + length bytes) % 64
unfolding absorb_all absorb
waiting-absorb_all [] v h = omega arith
waiting-absorb_all (b ∷ bytes) v h =
    ground (arith, waiting-absorb_all bytes (absorb v b), length-append v.1 (b ∷ []))

pub update_all_lem :
    (pieces : List (List ℕ)) (s : Sha256)
    → IsBuffer s
    → (view (update_all pieces s) ≡ absorb_all (view s) (join pieces))
      × IsBuffer (update_all pieces s)
      × ((update_all pieces s).total_size % 2 ^ 64 ≡ (s.total_size + length (join pieces)) % 2 ^ 64)
unfolding update_all join absorb_all
update_all_lem [] s v = (refl, v, omega arith)
update_all_lem (piece ∷ pieces) s v =
    let (seen, kept, counted) = view-update piece s v in
    let (later, fine, total) = update_all_lem pieces (update piece s) kept in
    (
      later
          ∙ ap (λ w. absorb_all w (join pieces)) seen
          ∙ sym (absorb_all-append (view s) piece (join pieces)),
      fine,
      omega (arith, length-append piece (join pieces)),
    )

finish_lem : (s : Sha256) → finish s ≡ hex_state (finish_state s)
unfolding finish
finish_lem s = refl

sha256_lem :
    (message : List ℕ)
    → sha256 message
      ≡ hex_state (absorb_all (initial_state, []) (message ++ padding (length message))).0
unfolding sha256
sha256_lem message = refl

-- The padding that a digest adds, where it has seen a whole message.
padding_of_seen :
    (s : Sha256) (message : List ℕ)
    → IsBuffer s
    → view s ≡ absorb_all (initial_state, []) message
    → s.total_size % 2 ^ 64 ≡ length message % 2 ^ 64
    → 0x80 ∷ (replicate ((119 - s.block_size) % 64) 0 ++ big_endian 8 (s.total_size * 8 % 2 ^ 64))
      ≡ padding (length message)
unfolding padding view
padding_of_seen s message kept seen counted =
    let waits : length (take s.block_size s.block) ≡ s.block_size =
      omega (arith, kept.block_full, kept.room, length-take s.block_size s.block) in
    let size : s.block_size ≡ length message % 64 = omega (
      arith,
      ap (λ (w : View). length w.1) seen,
      waiting-absorb_all message (initial_state, []) (omega arith),
    ) in
    let bits : s.total_size * 8 % 2 ^ 64 ≡ length message * 8 % 2 ^ 64 = omega arith in
    ap₂ (λ n b. 0x80 ∷ (replicate ((119 - n) % 64) 0 ++ big_endian 8 b)) size bits

-- However the message is cut into pieces, feeding them to a fresh digest one after the other and
-- finishing it gives the SHA-256 digest of the whole message.
pub finish-update_all :
    (pieces : List (List ℕ)) → finish (update_all pieces fresh) ≡ sha256 (join pieces)
finish-update_all pieces =
    let (seen, kept, counted) = update_all_lem pieces fresh fresh-IsBuffer in
    let s = update_all pieces fresh in
    let seen' : view s ≡ absorb_all (initial_state, []) (join pieces) =
      seen ∙ unfold view in refl in
    finish_lem s
    ∙ ap hex_state (
        finish_state-absorb s kept
        ∙ ap₂ (λ v p. (absorb_all v p).0) seen'
            (padding_of_seen s (join pieces) kept seen' (omega arith))
        ∙ ap (λ w. w.0)
            (sym (
              absorb_all-append (initial_state, []) (join pieces)
                (padding (length (join pieces))))))
    ∙ sym (sha256_lem (join pieces))
