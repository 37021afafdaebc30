-- ===== src/Prelude/Double.antt =====
-- The `double` operations of the program, over an abstract type. The order tests are the IEEE ones,
-- so they are false where an operand is not a number; `min`, `max` and `clamp` are those of
-- <algorithm>, written with `<` as the standard states them.
use Prim.Native.Nat.{ℕ, ◌+◌, ◌*◌, ◌/◌, ◌^◌}
use mathlib.Core.Bool.{Bool, true, ◌||◌}
use technical_doc_parser.Prelude.Tests.{if◌then◌else◌}
use technical_doc_parser.Prelude.Int.{
  ℤ, pos, negsuc, pos_part, neg_part, sub_ℕ, ltb_ℤ, int_beq, ◌+ℤ◌, ◌-ℤ◌, ◌*ℤ◌,
}

pub record Double {ℓ} (D : Type ℓ) : Type ℓ where
  -- `lit n d` is the double nearest to n / d: the literal 0.85 is `lit 85 100`.
  pub lit : ℕ → ℕ → D
  -- `static_cast<double>` of a signed integer
  pub of_int : ℤ → D
  pub add : D → D → D
  pub sub : D → D → D
  pub mul : D → D → D
  pub div : D → D → D
  pub abs : D → D
  pub lt : D → D → Bool
  pub eq : D → D → Bool
  pub is_finite : D → Bool
  -- `std::numeric_limits<double>::max()`
  pub largest : D

module _ {ℓ} {D : Type ℓ} ⦃d : Double D⦄ where
  open d use {lit, of_int, lt, eq}

  abbrev pub nought : D
  nought = lit 0 1

  abbrev pub of_nat : ℕ → D
  of_nat n = of_int (pos n)

  abbrev pub le : D → D → Bool
  le a b = lt a b || eq a b

  abbrev pub min : D → D → D
  min a b = if lt b a then b else a

  abbrev pub max : D → D → D
  max a b = if lt a b then b else a

  abbrev pub clamp : D → D → D → D
  clamp v lo hi = if lt v lo then lo else if lt hi v then hi else v

-- Thousandths in a signed integer: arithmetic that meets each of the laws that theorems assume.
abbrev pub Milli : Type 0
Milli = ℤ

abbrev pub scale_down : ℤ → ℤ
scale_down (pos n) = pos (n / 1000)
scale_down (negsuc n) = negsuc (n / 1000)

-- A quotient truncated towards zero.
abbrev pub quotient : ℤ → ℤ → ℤ
quotient a b =
    sub_ℕ (pos_part a * 1000 / pos_part b + neg_part a * 1000 / neg_part b)
      (pos_part a * 1000 / neg_part b + neg_part a * 1000 / pos_part b)

abbrev pub magnitude : ℤ → ℤ
magnitude a = if ltb_ℤ a (pos 0) then pos (neg_part a) else a

instance abbrev pub milli_double : Double Milli
milli_double = record {
  lit = λ n d. pos (n * 1000 / d);
  of_int = λ a. a *ℤ pos 1000;
  add = ◌+ℤ◌;
  sub = ◌-ℤ◌;
  mul = λ a b. scale_down (a *ℤ b);
  div = quotient;
  abs = magnitude;
  lt = ltb_ℤ;
  eq = int_beq;
  is_finite = λ _. true;
  largest = pos (10 ^ 300);
}
