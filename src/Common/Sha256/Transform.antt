-- ===== src/Common/Sha256/Transform.antt =====
-- cpp/common/file_fingerprint.cpp: `transform`, the compression of one block, with its constants.
use Prim.Native.Nat.{bit_and, bit_or, bit_xor}
use technical_doc_parser.Prelude.{
  ℕ, zero, suc, ◌+◌, ◌-◌, ◌*◌, ◌/◌, ◌%◌, ◌^◌, List, [], ◌∷◌, ◌++◌, get_or,
}

abbrev pub round_constants : List ℕ
round_constants =
    0x428a2f98 ∷ 0x71374491 ∷ 0xb5c0fbcf ∷ 0xe9b5dba5 ∷ 0x3956c25b ∷ 0x59f111f1 ∷ 0x923f82a4
    ∷ 0xab1c5ed5 ∷ 0xd807aa98 ∷ 0x12835b01 ∷ 0x243185be ∷ 0x550c7dc3 ∷ 0x72be5d74 ∷ 0x80deb1fe
    ∷ 0x9bdc06a7 ∷ 0xc19bf174 ∷ 0xe49b69c1 ∷ 0xefbe4786 ∷ 0x0fc19dc6 ∷ 0x240ca1cc ∷ 0x2de92c6f
    ∷ 0x4a7484aa ∷ 0x5cb0a9dc ∷ 0x76f988da ∷ 0x983e5152 ∷ 0xa831c66d ∷ 0xb00327c8 ∷ 0xbf597fc7
    ∷ 0xc6e00bf3 ∷ 0xd5a79147 ∷ 0x06ca6351 ∷ 0x14292967 ∷ 0x27b70a85 ∷ 0x2e1b2138 ∷ 0x4d2c6dfc
    ∷ 0x53380d13 ∷ 0x650a7354 ∷ 0x766a0abb ∷ 0x81c2c92e ∷ 0x92722c85 ∷ 0xa2bfe8a1 ∷ 0xa81a664b
    ∷ 0xc24b8b70 ∷ 0xc76c51a3 ∷ 0xd192e819 ∷ 0xd6990624 ∷ 0xf40e3585 ∷ 0x106aa070 ∷ 0x19a4c116
    ∷ 0x1e376c08 ∷ 0x2748774c ∷ 0x34b0bcb5 ∷ 0x391c0cb3 ∷ 0x4ed8aa4a ∷ 0x5b9cca4f ∷ 0x682e6ff3
    ∷ 0x748f82ee ∷ 0x78a5636f ∷ 0x84c87814 ∷ 0x8cc70208 ∷ 0x90befffa ∷ 0xa4506ceb ∷ 0xbef9a3f7
    ∷ 0xc67178f2 ∷ []

abbrev pub initial_state : List ℕ
initial_state =
    0x6a09e667 ∷ 0xbb67ae85 ∷ 0x3c6ef372 ∷ 0xa54ff53a ∷ 0x510e527f ∷ 0x9b05688c ∷ 0x1f83d9ab
    ∷ 0x5be0cd19 ∷ []

-- The sum of two words.
infixl 65 ◌+w◌
abbrev pub ◌+w◌ : ℕ → ℕ → ℕ
a +w b = (a + b) % 2 ^ 32

unfoldable pub rotate_right : ℕ → ℕ → ℕ
rotate_right value count = bit_or (value / 2 ^ count) (value * 2 ^ (32 - count) % 2 ^ 32)

-- `words[index]` for the first sixteen: four bytes each, the most significant first.
unfoldable pub load_words : List ℕ → List ℕ
load_words (a ∷ b ∷ c ∷ d ∷ block) =
    bit_or (bit_or (bit_or (a * 2 ^ 24 % 2 ^ 32) (b * 2 ^ 16)) (c * 2 ^ 8)) d ∷ load_words block
load_words _ = []

unfoldable pub next_word : List ℕ → ℕ → ℕ
unfolding rotate_right
next_word words index =
    let w15 = get_or words (index - 15) 0 in
    let w2 = get_or words (index - 2) 0 in
    let s0 = bit_xor (bit_xor (rotate_right w15 7) (rotate_right w15 18)) (w15 / 2 ^ 3) in
    let s1 = bit_xor (bit_xor (rotate_right w2 17) (rotate_right w2 19)) (w2 / 2 ^ 10) in
    get_or words (index - 16) 0 +w s0 +w get_or words (index - 7) 0 +w s1

-- The words from `index` on, `left` of them.
unfoldable pub extend_words : ℕ → ℕ → List ℕ → List ℕ
unfolding next_word
extend_words zero index words = words
extend_words (suc left) index words =
    extend_words left (index + 1) (words ++ next_word words index ∷ [])

pub record Registers : Type 0 where
  a : ℕ
  b : ℕ
  c : ℕ
  d : ℕ
  e : ℕ
  f : ℕ
  g : ℕ
  h : ℕ

unfoldable pub round : Registers → ℕ → ℕ → Registers
unfolding rotate_right
round r constant word =
    let sum1 = bit_xor (bit_xor (rotate_right r.e 6) (rotate_right r.e 11)) (rotate_right r.e 25) in
    let choose = bit_xor (bit_and r.e r.f) (bit_and (bit_xor r.e 0xffff_ffff) r.g) in
    let first = r.h +w sum1 +w choose +w constant +w word in
    let sum0 = bit_xor (bit_xor (rotate_right r.a 2) (rotate_right r.a 13)) (rotate_right r.a 22) in
    let majority = bit_xor (bit_xor (bit_and r.a r.b) (bit_and r.a r.c)) (bit_and r.b r.c) in
    let second = sum0 +w majority in
    record {
      a = first +w second;
      b = r.a;
      c = r.b;
      d = r.c;
      e = r.d +w first;
      f = r.e;
      g = r.f;
      h = r.g;
    }

unfoldable pub rounds : List ℕ → List ℕ → Registers → Registers
unfolding round
rounds (k ∷ constants) (w ∷ words) r = rounds constants words (round r k w)
rounds _ _ r = r

load_registers : List ℕ → Registers
load_registers s = record {
  a = get_or s 0 0;
  b = get_or s 1 0;
  c = get_or s 2 0;
  d = get_or s 3 0;
  e = get_or s 4 0;
  f = get_or s 5 0;
  g = get_or s 6 0;
  h = get_or s 7 0;
}

add_registers : List ℕ → Registers → List ℕ
add_registers s r =
    (get_or s 0 0 +w r.a)
    ∷ (get_or s 1 0 +w r.b)
    ∷ (get_or s 2 0 +w r.c)
    ∷ (get_or s 3 0 +w r.d)
    ∷ (get_or s 4 0 +w r.e)
    ∷ (get_or s 5 0 +w r.f)
    ∷ (get_or s 6 0 +w r.g)
    ∷ (get_or s 7 0 +w r.h)
    ∷ []

-- The state after the block.
unfoldable pub transform : List ℕ → List ℕ → List ℕ
unfolding load_words extend_words rounds load_registers add_registers
transform state block =
    let words = extend_words 48 16 (load_words block) in
    add_registers state (rounds round_constants words (load_registers state))
