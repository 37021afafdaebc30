-- ===== src/Common/Sha256/Padding.antt =====
-- cpp/common/file_fingerprint.cpp: `finish` against the padding of FIPS 180-4.
use mathlib.Core.List.{append_assoc, append-nil}
use technical_doc_parser.Prelude.{
  ℕ, zero, suc, ◌+◌, ◌-◌, ◌*◌, ◌/◌, ◌%◌, ◌^◌, ◌≤◌, ◌<◌, ◌≡◌, refl, sym, ap, ◌∙◌, inl, inr, List, [],
  ◌∷◌, ◌++◌, arith, ltb, if◌then◌else◌, Bool-cases, length, take, set, replicate, length-append,
  length-take, length-replicate,
}
use technical_doc_parser.Common.Sha256.Transform.{transform}
use technical_doc_parser.Common.Sha256.Buffer.{
  IsBuffer, view, absorb_all, absorb_all-append, absorb_all_run, take-write_at, length-write_at,
}
use technical_doc_parser.Common.Sha256.{Sha256, fill_zero, store_length, finish_state}

-- A number in `count` bytes, the most significant first.
unfoldable pub big_endian : ℕ → ℕ → List ℕ
big_endian zero value = []
big_endian (suc count) value = (value / 2 ^ (count * 8) % 256) ∷ big_endian count value

set-take :
    (m v : ℕ) (xs ys : List ℕ)
    → m < length xs
    → set (take (suc m) xs ++ ys) m v ≡ take m xs ++ v ∷ ys
set-take m v [] ys h = absurd (omega arith)
set-take zero v (x ∷ xs) ys h = refl
set-take (suc m) v (x ∷ xs) ys h = ap (◌∷◌ x) (set-take m v xs ys (omega arith))

take-set : (m v : ℕ) (xs : List ℕ) → m < length xs → take (suc m) (set xs m v) ≡ take m xs ++ v ∷ []
take-set m v [] h = absurd (omega arith)
take-set zero v (x ∷ xs) h = refl
take-set (suc m) v (x ∷ xs) h = ap (◌∷◌ x) (take-set m v xs (omega arith))

length-set : (m v : ℕ) (xs : List ℕ) → length (set xs m v) ≡ length xs
length-set m v [] = refl
length-set zero v (x ∷ xs) = refl
length-set (suc m) v (x ∷ xs) = ap suc (length-set m v xs)

replicate_add : (a b : ℕ) (v : ℕ) → replicate (a + b) v ≡ replicate a v ++ replicate b v
replicate_add zero b v = let e : zero + b ≡ b = omega arith in rw e
replicate_add (suc a) b v =
    let e : suc a + b ≡ suc (a + b) = omega arith in rw e (ap (◌∷◌ v) (replicate_add a b v))

take_all : (n : ℕ) (xs : List ℕ) → length xs ≡ n → take n xs ≡ xs
take_all zero [] h = refl
take_all (suc n) [] h = refl
take_all zero (x ∷ xs) h = absurd (omega arith)
take_all (suc n) (x ∷ xs) h = ap (◌∷◌ x) (take_all n xs (omega arith))

length-big_endian : (count value : ℕ) → length (big_endian count value) ≡ count
unfolding big_endian
length-big_endian zero value = refl
length-big_endian (suc count) value = ap suc (length-big_endian count value)

store_length_lem :
    (count bits : ℕ) (block : List ℕ)
    → count ≤ 8
    → length block ≡ 64
    → store_length count bits block ≡ take (64 - count) block ++ big_endian count bits
unfolding store_length big_endian
store_length_lem zero bits block h full = rw (append-nil, take_all 64 block full)
store_length_lem (suc count) bits block h full =
    let above : 64 - count ≡ suc (63 - count) = omega arith in
    let below : 64 - suc count ≡ 63 - count = omega arith in
    rw (store_length_lem count bits block (omega arith) full, above, below)
      (set-take (63 - count) (bits / 2 ^ (count * 8) % 256) block (big_endian count bits)
        (omega arith))

absorb_block :
    (state waiting chunk : List ℕ)
    → length waiting < 64
    → length waiting + length chunk ≡ 64
    → absorb_all (state, waiting) chunk ≡ (transform state (waiting ++ chunk), [])
absorb_block state waiting chunk lt full =
    ground (arith, absorb_all_run state waiting chunk lt (omega arith))

-- The buffer behind `block_[block_size_++] = 0x80U`.
abbrev marked : Sha256 → List ℕ
marked s = set s.block s.block_size 0x80

module _ (s : Sha256) (v : IsBuffer s) where
  pub waiting : List ℕ
  waiting = take s.block_size s.block

  length-waiting : length waiting ≡ s.block_size
  unfolding waiting
  length-waiting = omega (arith, v.block_full, v.room, length-take s.block_size s.block)

  length-marked : length (marked s) ≡ 64
  length-marked = length-set s.block_size 0x80 s.block ∙ v.block_full

  take-marked : take (s.block_size + 1) (marked s) ≡ waiting ++ 0x80 ∷ []
  unfolding waiting
  take-marked =
      let next : s.block_size + 1 ≡ suc s.block_size = omega arith in
      rw next (take-set s.block_size 0x80 s.block (omega (arith, v.room, v.block_full)))

  -- Zeros from behind the mark up to `last`.
  take-fill_zero :
      (last : ℕ)
      → s.block_size < last
      → last ≤ 64
      → take last (fill_zero (marked s) (s.block_size + 1) last)
        ≡ waiting ++ (0x80 ∷ replicate (last - (s.block_size + 1)) 0)
  take-fill_zero last lo hi =
      let zeros : List ℕ = replicate (last - (s.block_size + 1)) 0 in
      let count : length zeros ≡ last - (s.block_size + 1) = length-replicate _ _ in
      let end : s.block_size + 1 + length zeros ≡ last = omega arith in
      ap (λ n. take n (fill_zero (marked s) (s.block_size + 1) last)) (sym end)
      ∙ take-write_at (marked s) (s.block_size + 1) zeros (omega (arith, length-marked))
      ∙ ap (λ w. w ++ zeros) take-marked
      ∙ append_assoc waiting (0x80 ∷ []) zeros

  length-fill_zero :
      (last : ℕ)
      → s.block_size < last
      → last ≤ 64
      → length (fill_zero (marked s) (s.block_size + 1) last) ≡ 64
  length-fill_zero last lo hi =
      let zeros : List ℕ = replicate (last - (s.block_size + 1)) 0 in
      let count : length zeros ≡ last - (s.block_size + 1) = length-replicate _ _ in
      length-write_at (marked s) (s.block_size + 1) zeros (omega (arith, length-marked))
      ∙ length-marked

  abbrev bits : ℕ
  bits = s.total_size * 8 % 2 ^ 64

  -- One block is enough.
  short : List ℕ
  short = waiting ++ (0x80 ∷ (replicate (56 - (s.block_size + 1)) 0 ++ big_endian 8 bits))

  store_length-short :
      s.block_size < 56 → store_length 8 bits (fill_zero (marked s) (s.block_size + 1) 56) ≡ short
  unfolding short
  store_length-short lo =
      store_length_lem 8 bits (fill_zero (marked s) (s.block_size + 1) 56) (omega arith)
        (length-fill_zero 56 lo (omega arith))
      ∙ ap (λ w. w ++ big_endian 8 bits) (take-fill_zero 56 lo (omega arith))
      ∙ append_assoc waiting (0x80 ∷ replicate (56 - (s.block_size + 1)) 0) (big_endian 8 bits)

  full : List ℕ
  full = waiting ++ (0x80 ∷ replicate (64 - (s.block_size + 1)) 0)

  fill_zero-full : fill_zero (marked s) (s.block_size + 1) 64 ≡ full
  unfolding full
  fill_zero-full =
      sym (take_all 64 _ (length-fill_zero 64 (omega (arith, v.room)) (omega arith)))
      ∙ take-fill_zero 64 (omega (arith, v.room)) (omega arith)

  length-full : length full ≡ 64
  length-full =
      ap length (sym fill_zero-full) ∙ length-fill_zero 64 (omega (arith, v.room)) (omega arith)

  store_length_second :
      store_length 8 bits (fill_zero full 0 56) ≡ replicate 56 0 ++ big_endian 8 bits
  store_length_second =
      let zeros : List ℕ = replicate 56 0 in
      store_length_lem 8 bits (fill_zero full 0 56) (omega arith)
        (length-write_at full 0 zeros (omega (arith, length-full)) ∙ length-full)
      ∙ ap (λ w. w ++ big_endian 8 bits) (take-write_at full 0 zeros (omega (arith, length-full)))

  finish_state_cases : finish_state s ≡ (
      if ltb 56 (s.block_size + 1)
      then transform (transform s.state full) (replicate 56 0 ++ big_endian 8 bits)
      else transform s.state short)
  unfolding finish_state
  finish_state_cases = elim (Bool-cases (ltb 56 (s.block_size + 1))) [
    | inl long ↦ rw (long, fill_zero-full) (ap (transform _) store_length_second)
    | inr fits ↦ rw fits (ap (transform s.state) (store_length-short (ground arith)))
  ]

  -- `finish` absorbs the mark, the zeros up to eight bytes below a full block, and the bit count.
  pub finish_state-absorb :
      finish_state s
      ≡ (absorb_all
          (view s)
          (0x80 ∷ (replicate ((119 - s.block_size) % 64) 0 ++ big_endian 8 bits))).0
  unfolding waiting short full view big_endian
  finish_state-absorb = elim (Bool-cases (ltb 56 (s.block_size + 1))) [
    | inl long ↦
        let gap : (119 - s.block_size) % 64 ≡ (64 - (s.block_size + 1)) + 56 =
          ground (arith, v.room) in
        let head : List ℕ = 0x80 ∷ replicate (64 - (s.block_size + 1)) 0 in
        let last : List ℕ = replicate 56 0 ++ big_endian 8 bits in
        let count : length head ≡ suc (64 - (s.block_size + 1)) = ap suc (length-replicate _ _) in
        rw
          (
            finish_state_cases,
            long,
            gap,
            replicate_add (64 - (s.block_size + 1)) 56 0,
            append_assoc (replicate (64 - (s.block_size + 1)) 0) (replicate 56 0)
                (big_endian 8 bits),
          )
          (ap (λ w. w.0)
            (sym (
              absorb_all-append (view s) head last
              ∙ ap (λ w. absorb_all w last)
                  (absorb_block s.state waiting head (omega (arith, length-waiting, v.room))
                    (omega (arith, length-waiting, v.room)))
              ∙ absorb_block (transform s.state full) [] last (omega arith)
                  (ap (λ n. 56 + n) (length-big_endian 8 bits)))))
    | inr fits ↦
        let gap : (119 - s.block_size) % 64 ≡ 56 - (s.block_size + 1) = ground (arith, v.room) in
        let zeros : List ℕ = replicate (56 - (s.block_size + 1)) 0 in
        let count : length zeros ≡ 56 - (s.block_size + 1) = length-replicate _ _ in
        let size : length (zeros ++ big_endian 8 bits) ≡ 64 - (s.block_size + 1) =
          ground (arith, length-append zeros (big_endian 8 bits), length-big_endian 8 bits) in
        rw (finish_state_cases, fits, gap)
          (ap (λ w. w.0)
            (sym (
              absorb_block s.state waiting (0x80 ∷ (zeros ++ big_endian 8 bits))
                (omega (arith, length-waiting, v.room)) (ground (arith, length-waiting)))))
  ]
