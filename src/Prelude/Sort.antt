-- ===== src/Prelude/Sort.antt =====
-- `std::stable_sort` and `std::sort` with a comparator.
use Prim.Native.Nat.{◌+◌}
use mathlib.Core.Path.{◌≡◌, refl}
use mathlib.Core.List.{List, [], ◌∷◌}
use mathlib.Core.Bool.{Bool}
use native.Mathlib.Omega.{arith}
use technical_doc_parser.Prelude.Tests.{if◌then◌else◌}
use technical_doc_parser.Prelude.Lists.{count}

module _ {ℓ} {A : Type ℓ} (less : A → A → Bool) where
  -- Behind the entries that are not greater.
  unfoldable pub insert_sorted : A → List A → List A
  insert_sorted x [] = x ∷ []
  insert_sorted x (y ∷ ys) =
      let rest = insert_sorted x ys in if less x y then x ∷ y ∷ ys else y ∷ rest

  unfoldable pub sort_onto : List A → List A → List A
  unfolding insert_sorted
  sort_onto sorted [] = sorted
  sort_onto sorted (x ∷ xs) = sort_onto (insert_sorted x sorted) xs

  unfoldable pub stable_sort : List A → List A
  unfolding sort_onto
  stable_sort xs = sort_onto [] xs

  count-insert_sorted :
      (p : A → Bool) (x : A) (ys : List A) → count p (insert_sorted x ys) ≡ count p (x ∷ ys)
  unfolding insert_sorted
  count-insert_sorted p x [] = refl
  count-insert_sorted p x (y ∷ ys) = ground (arith, count-insert_sorted p x ys)

  count-sort_onto :
      (p : A → Bool) (sorted xs : List A)
      → count p (sort_onto sorted xs) ≡ count p sorted + count p xs
  unfolding sort_onto
  count-sort_onto p sorted [] = omega arith
  count-sort_onto p sorted (x ∷ xs) =
      ground (arith, count-sort_onto p (insert_sorted x sorted) xs, count-insert_sorted p x sorted)

  pub count-stable_sort : (p : A → Bool) (xs : List A) → count p (stable_sort xs) ≡ count p xs
  unfolding stable_sort
  count-stable_sort p xs = omega (arith, count-sort_onto p [] xs)
