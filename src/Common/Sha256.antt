-- ===== src/Common/Sha256.antt =====
-- cpp/common/file_fingerprint.cpp, class `Sha256`: the streaming digest. A word is a number below
-- 2 ^ 32 and sums of words wrap; the buffer is a list of 64 bytes.
pub mod Transform
pub mod Buffer
pub mod Streaming
pub mod Padding
pub mod Digest
pub mod Tests
use Prim.Native.Nat.{min}
use technical_doc_parser.Prelude.{
  ℕ, zero, suc, ◌+◌, ◌-◌, ◌*◌, ◌/◌, ◌%◌, ◌^◌, List, [], ◌∷◌, ◌++◌, ltb, if◌then◌else◌, Text, length,
  take, drop, set, replicate, nat_beq, get_or,
}
use Transform.{transform, initial_state}

pub record Sha256 : Type 0 where
  pub state : List ℕ
  pub block : List ℕ
  pub block_size : ℕ
  pub total_size : ℕ

abbrev pub fresh : Sha256
fresh = record { state = initial_state; block = replicate 64 0; block_size = 0; total_size = 0 }

-- `std::copy_n` of `source` into the buffer from `offset` on.
abbrev pub write_at : List ℕ → ℕ → List ℕ → List ℕ
write_at buffer offset source =
    take offset buffer ++ (source ++ drop (offset + length source) buffer)

-- One pass of the loop of `update`, with `copied` the bytes that it takes.
unfoldable pub copy_in : Sha256 → List ℕ → Sha256
copy_in s chunk =
    let block = write_at s.block s.block_size chunk in
    let block_size = s.block_size + length chunk in
    if nat_beq block_size 64
    then record s { state = transform s.state block; block = block; block_size = 0 }
    else record s { block = block; block_size = block_size }

-- `while (size > 0)`; each pass takes at least one byte, so `length` is fuel enough.
unfoldable pub update_loop : ℕ → List ℕ → Sha256 → Sha256
unfolding copy_in
update_loop zero bytes s = s
update_loop (suc fuel) [] s = s
update_loop (suc fuel) (b ∷ bytes) s =
    let copied = min (length (b ∷ bytes)) (64 - s.block_size) in
    update_loop fuel (drop copied (b ∷ bytes)) (copy_in s (take copied (b ∷ bytes)))

unfoldable pub update : List ℕ → Sha256 → Sha256
unfolding update_loop
update bytes s =
    update_loop (length bytes) bytes
      (record s { total_size = (s.total_size + length bytes) % 2 ^ 64 })

-- `std::fill` of the buffer from `first` up to `last` with zeros.
abbrev pub fill_zero : List ℕ → ℕ → ℕ → List ℕ
fill_zero buffer first last = write_at buffer first (replicate (last - first) 0)

-- `block_[63U - index] = total_bits >> (index * 8U)` for the indices below the count.
unfoldable pub store_length : ℕ → ℕ → List ℕ → List ℕ
store_length zero total_bits block = block
store_length (suc index) total_bits block =
    set (store_length index total_bits block) (63 - index) (total_bits / 2 ^ (index * 8) % 256)

-- `finish` up to the last `transform`.
unfoldable pub finish_state : Sha256 → List ℕ
unfolding store_length
finish_state s =
    let total_bits = s.total_size * 8 % 2 ^ 64 in
    let block = set s.block s.block_size 0x80 in
    let block_size = s.block_size + 1 in
    if ltb 56 block_size
    then (let full = fill_zero block block_size 64 in
        transform (transform s.state full) (store_length 8 total_bits (fill_zero full 0 56)))
    else transform s.state (store_length 8 total_bits (fill_zero block block_size 56))

-- `std::hex` digits, and a word padded to eight of them.
abbrev pub hex_digit : ℕ → ℕ
hex_digit d = if ltb d 10 then d + 48 else d + 87

unfoldable pub hex_word : ℕ → ℕ → Text
hex_word zero value = []
hex_word (suc width) value = hex_digit (value / 16 ^ width % 16) ∷ hex_word width value

unfoldable pub hex_state : List ℕ → Text
unfolding hex_word
hex_state [] = []
hex_state (word ∷ words) = hex_word 8 word ++ hex_state words

unfoldable pub finish : Sha256 → Text
unfolding finish_state hex_state
finish s = hex_state (finish_state s)
