-- ===== src/Common/Sha256/Buffer.antt =====
-- cpp/common/file_fingerprint.cpp: the buffered bytes of a digest, seen without the 64-byte array.
use mathlib.Core.List.{append-nil, append_assoc}
use technical_doc_parser.Prelude.{
  ℕ, zero, suc, ◌+◌, ◌≤◌, ◌<◌, ◌≡◌, refl, ap, ◌∙◌, List, [], ◌∷◌, ◌++◌, arith, if◌then◌else◌,
  nat_beq, length, take, drop, length-append, length-take, length-drop,
}
use technical_doc_parser.Common.Sha256.Transform.{transform}
use technical_doc_parser.Common.Sha256.{Sha256, write_at, copy_in}

-- A digest read as the chaining state and the bytes that wait for a full block.
abbrev pub View : Type 0
View = List ℕ × List ℕ

-- The definition of the digest byte by byte: the sixty-fourth waiting byte completes a block.
unfoldable pub absorb : View → ℕ → View
absorb (state, waiting) b =
    if nat_beq (length waiting + 1) 64
    then (transform state (waiting ++ b ∷ []), [])
    else (state, waiting ++ b ∷ [])

unfoldable pub absorb_all : View → List ℕ → View
unfolding absorb
absorb_all v [] = v
absorb_all v (b ∷ bytes) = absorb_all (absorb v b) bytes

pub absorb_all-append :
    (v : View) (xs ys : List ℕ) → absorb_all v (xs ++ ys) ≡ absorb_all (absorb_all v xs) ys
unfolding absorb_all
absorb_all-append v [] ys = refl
absorb_all-append v (x ∷ xs) ys = absorb_all-append (absorb v x) xs ys

-- A run of bytes that fits the block is absorbed at once.
pub absorb_all_run :
    (state waiting chunk : List ℕ)
    → length waiting < 64
    → length waiting + length chunk ≤ 64
    → absorb_all (state, waiting) chunk ≡ (
        if nat_beq (length waiting + length chunk) 64
        then (transform state (waiting ++ chunk), [])
        else (state, waiting ++ chunk))
unfolding absorb_all
absorb_all_run state waiting [] lt le = rw (append-nil waiting) (ground arith)
absorb_all_run state waiting (b ∷ []) lt le = ground arith
absorb_all_run state waiting (b ∷ c ∷ chunk) lt le =
    let longer = length-append waiting (b ∷ []) in
    let rest =
      absorb_all_run state (waiting ++ b ∷ []) (c ∷ chunk) (omega (arith, longer))
        (omega (arith, longer)) in
    ground (arith, rest, longer, append_assoc waiting (b ∷ []) (c ∷ chunk))

module _ {ℓ} {A : Type ℓ} where
  take-append_at :
      (n m : ℕ) (xs ys : List A) → length xs + m ≡ n → take n (xs ++ ys) ≡ xs ++ take m ys
  take-append_at n m [] ys h = ap (λ k. take k ys) (omega arith)
  take-append_at zero m (x ∷ xs) ys h = absurd (omega arith)
  take-append_at (suc n) m (x ∷ xs) ys h = ap (◌∷◌ x) (take-append_at n m xs ys (omega arith))

  drop_all : (n : ℕ) (xs : List A) → length xs ≤ n → drop n xs ≡ []
  drop_all zero [] h = refl
  drop_all (suc n) [] h = refl
  drop_all zero (x ∷ xs) h = absurd (omega arith)
  drop_all (suc n) (x ∷ xs) h = drop_all n xs (omega arith)

pub length-write_at :
    (buffer : List ℕ) (offset : ℕ) (source : List ℕ)
    → offset + length source ≤ length buffer
    → length (write_at buffer offset source) ≡ length buffer
length-write_at buffer offset source h =
    let tail = drop (offset + length source) buffer in
    omega (
      arith,
      length-append (take offset buffer) (source ++ tail),
      length-append source tail,
      length-take offset buffer,
      length-drop (offset + length source) buffer,
    )

-- The bytes up to the end of what was written.
pub take-write_at :
    (buffer : List ℕ) (offset : ℕ) (source : List ℕ)
    → offset + length source ≤ length buffer
    → take (offset + length source) (write_at buffer offset source) ≡ take offset buffer ++ source
take-write_at buffer offset source h =
    let tail = drop (offset + length source) buffer in
    let size : length (take offset buffer) ≡ offset = omega (arith, length-take offset buffer) in
    take-append_at (offset + length source) (length source) (take offset buffer) (source ++ tail)
      (omega arith)
    ∙ ap (◌++◌ (take offset buffer))
        (take-append_at (length source) 0 source tail (omega arith) ∙ append-nil source)

pub write_at_to_end :
    (buffer : List ℕ) (offset : ℕ) (source : List ℕ)
    → offset + length source ≡ length buffer
    → write_at buffer offset source ≡ take offset buffer ++ source
write_at_to_end buffer offset source h =
    rw (drop_all (offset + length source) buffer (omega arith), append-nil source)

pub record IsBuffer (s : Sha256) : Type 0 where
  pub block_full : length s.block ≡ 64
  pub room : s.block_size < 64

unfoldable pub view : Sha256 → View
view s = (s.state, take s.block_size s.block)

pub copy_in-IsBuffer :
    (s : Sha256) (chunk : List ℕ)
    → IsBuffer s
    → s.block_size + length chunk ≤ 64
    → IsBuffer (copy_in s chunk)
unfolding copy_in
copy_in-IsBuffer s chunk v h = ground (arith, length-write_at s.block s.block_size chunk)

-- A pass of the loop absorbs its bytes.
pub view-copy_in :
    (s : Sha256) (chunk : List ℕ)
    → IsBuffer s
    → s.block_size + length chunk ≤ 64
    → view (copy_in s chunk) ≡ absorb_all (view s) chunk
unfolding copy_in view
view-copy_in s chunk v h =
    let waiting = take s.block_size s.block in
    let size : length waiting ≡ s.block_size = omega (arith, length-take s.block_size s.block) in
    let run = absorb_all_run s.state waiting chunk (omega arith) (omega arith) in
    ground (
      arith,
      run,
      ap (λ n. nat_beq (n + length chunk) 64) size,
      take-write_at s.block s.block_size chunk,
      write_at_to_end s.block s.block_size chunk,
    )
