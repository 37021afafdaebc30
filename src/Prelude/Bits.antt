-- ===== src/Prelude/Bits.antt =====
-- Laws of the native bit operations that masks and disjoint unions of bits need.
use Prim.Native.Nat.{
  ℕ, zero, suc, ◌+◌, ◌*◌, ◌/◌, ◌%◌, ◌≤◌, ◌<◌, min, bit_and, bit_or, digits, bit_and-bitwise,
}
use mathlib.Core.Path.{◌≡◌, refl}
use mathlib.Core.Bool.{Bool, true, ◌&&◌}
use native.Mathlib.Omega.{arith}
use technical_doc_parser.Prelude.Tests.{nat_beq, nat_beq_iff}

-- A test that holds of every number under a bound, by evaluation.
holds_under : ℕ → (ℕ → Bool) → Bool
holds_under zero test = true
holds_under (suc bound) test = test bound && holds_under bound test

holds_under_lem :
    (bound : ℕ) (test : ℕ → Bool) (v : ℕ)
    → v < bound
    → holds_under bound test ≡ true
    → test v ≡ true
unfolding holds_under
holds_under_lem zero test v small every = absurd (omega arith)
holds_under_lem (suc bound) test v small every = ground (arith, holds_under_lem bound test v)

-- The digits of a conjunction, computed on fuel.
abbrev anded : ℕ → ℕ → ℕ → ℕ
anded fuel x y = digits (λ _. zero) min fuel x y

anded-zero : (fuel y : ℕ) → anded fuel zero y ≡ zero
anded-zero zero y = refl
anded-zero (suc fuel) y = refl

-- Any two amounts of fuel that reach the first operand agree.
anded_enough : (x y f g : ℕ) → x ≤ g → x ≤ f → anded g x y ≡ anded f x y
anded_enough zero y f g below above = omega (arith, anded-zero f y, anded-zero g y)
anded_enough (suc x) y f zero below above = absurd (omega arith)
anded_enough (suc x) y zero (suc g) below above = absurd (omega arith)
anded_enough (suc x) y (suc f) (suc g) below above =
    omega (arith, anded_enough (suc x / 2) (y / 2) f g (omega arith) (omega arith))

nothing_anded : (y : ℕ) → bit_and zero y ≡ zero
nothing_anded y = bit_and-bitwise zero y

-- The lowest digit of a conjunction, and the conjunction of the halves.
split_anded : (x y : ℕ) → bit_and x y ≡ min (x % 2) (y % 2) + bit_and (x / 2) (y / 2) * 2
split_anded zero y = omega (arith, nothing_anded (y / 2), nothing_anded y)
split_anded (suc x) y =
    let half = suc x / 2 in
    omega (
      arith,
      anded_enough half (y / 2) half x (omega arith) (omega arith),
      bit_and-bitwise half (y / 2),
      bit_and-bitwise (suc x) y,
    )

anded_nothing : (fuel x : ℕ) → x ≤ fuel → bit_and x zero ≡ zero
anded_nothing fuel zero below = refl
anded_nothing zero (suc x) below = absurd (omega arith)
anded_nothing (suc fuel) (suc x) below =
    omega (arith, anded_nothing fuel (suc x / 2) (omega arith), split_anded (suc x) zero)

mask_one : (x : ℕ) → bit_and x 1 ≡ x % 2
mask_one x = omega (arith, anded_nothing (x / 2) (x / 2) (omega arith), split_anded x 1)

mask_two : (x : ℕ) → bit_and x 3 ≡ x % 4
mask_two x = omega (arith, mask_one (x / 2), split_anded x 3)

-- The masks of the UTF-8 encoder.
pub mask_three : (a : ℕ) → bit_and a 0x07 ≡ a % 8
mask_three a = omega (arith, split_anded a 7, mask_two (a / 2))

pub mask_four : (a : ℕ) → bit_and a 0x0f ≡ a % 16
mask_four a = omega (arith, split_anded a 15, mask_three (a / 2))

pub mask_five : (a : ℕ) → bit_and a 0x1f ≡ a % 32
mask_five a = omega (arith, split_anded a 31, mask_four (a / 2))

pub mask_six : (a : ℕ) → bit_and a 0x3f ≡ a % 64
mask_six a = omega (arith, split_anded a 63, mask_five (a / 2))

join_table : ℕ → ℕ → ℕ → Bool
join_table high width x = nat_beq (bit_or high x) (high + x)

join_of_table :
    (high width x : ℕ)
    → holds_under width (join_table high width) ≡ true
    → x < width
    → bit_or high x ≡ high + x
unfolding join_table
join_of_table high width x t h =
    (nat_beq_iff _ _).0 (holds_under_lem width (join_table high width) x h t)

-- The lead and continuation bytes: a tag above the payload's bits is added.
pub join_80 : (x : ℕ) → x < 64 → bit_or 0x80 x ≡ 0x80 + x
unfolding holds_under join_table
join_80 x h = join_of_table 0x80 64 x refl h

pub join_c0 : (x : ℕ) → x < 32 → bit_or 0xc0 x ≡ 0xc0 + x
unfolding holds_under join_table
join_c0 x h = join_of_table 0xc0 32 x refl h

pub join_e0 : (x : ℕ) → x < 16 → bit_or 0xe0 x ≡ 0xe0 + x
unfolding holds_under join_table
join_e0 x h = join_of_table 0xe0 16 x refl h

pub join_f0 : (x : ℕ) → x < 8 → bit_or 0xf0 x ≡ 0xf0 + x
unfolding holds_under join_table
join_f0 x h = join_of_table 0xf0 8 x refl h
