-- ===== src/Prelude/Dict.antt =====
-- A `std::map` or `std::unordered_map` as an association list, each key at most once.
use mathlib.Core.Path.{◌≡◌, refl, subst}
use mathlib.Core.Option.{Option, none, some, some-injective}
use mathlib.Core.Logic.{inl, inr}
use mathlib.Core.List.{List, [], ◌∷◌}
use native.Mathlib.Omega.{arith}
use technical_doc_parser.Prelude.Tests.{if◌then◌else◌, Bool-cases}
use technical_doc_parser.Prelude.Keys.{Eq, ◌==◌}

module _ {ℓ κ} {K : Type ℓ} {V : Type κ} ⦃e : Eq K⦄ where
  unfoldable pub lookup : K → List (K × V) → Option V
  lookup k [] = none
  lookup k ((j, v) ∷ m) = if j == k then some v else lookup k m

  -- `m[k] = v`
  unfoldable pub insert : K → V → List (K × V) → List (K × V)
  insert k v [] = (k, v) ∷ []
  insert k v ((j, w) ∷ m) = if j == k then (k, v) ∷ m else (j, w) ∷ insert k v m

  unfoldable pub erase : K → List (K × V) → List (K × V)
  erase k [] = []
  erase k ((j, w) ∷ m) = let rest = erase k m in if j == k then rest else (j, w) ∷ rest

  pub lookup-insert :
      (key other : K) (value : V) (entries : List (K × V))
      → lookup other (insert key value entries)
        ≡ (if key == other then some value else lookup other entries)
  unfolding lookup insert
  lookup-insert key other value [] = refl
  lookup-insert key other value ((at, old) ∷ rest) = ground (
    arith,
    e.agree_iff at key,
    e.agree_iff at other,
    e.agree_iff key other,
    lookup-insert key other value rest,
  )

  pub lookup-erase :
      (k j : K) (m : List (K × V)) → lookup j (erase k m) ≡ (if k == j then none else lookup j m)
  unfolding lookup erase
  lookup-erase k j [] = ground arith
  lookup-erase k j ((i, w) ∷ m) =
      ground (arith, e.agree_iff k j, e.agree_iff i k, e.agree_iff i j, lookup-erase k j m)

  -- `m.emplace(k, v)`: an entry that is there stays.
  unfoldable pub emplace : K → V → List (K × V) → List (K × V)
  emplace k v [] = (k, v) ∷ []
  emplace k v ((j, w) ∷ m) = if j == k then (j, w) ∷ m else (j, w) ∷ emplace k v m

  pub lookup-emplace :
      (k j : K) (v : V) (m : List (K × V))
      → lookup j (emplace k v m)
        ≡ elim (lookup j m) [ some w ↦ some w | none ↦ if k == j then some v else none ]
  unfolding lookup emplace
  lookup-emplace k j v [] = refl
  lookup-emplace k j v ((i, w) ∷ m) =
      ground (arith, e.agree_iff k j, e.agree_iff i k, e.agree_iff i j, lookup-emplace k j v m)

  -- A predicate of every value.
  abbrev pub AllValues {μ} : (V → Type μ) → List (K × V) → Type μ
  AllValues P [] = Unit
  AllValues P ((k, v) ∷ m) = P v × AllValues P m

  module _ {μ} (P : V → Type μ) where
    pub AllValues-lookup :
        (k : K) (v : V) (m : List (K × V)) → AllValues P m → lookup k m ≡ some v → P v
    unfolding lookup
    AllValues-lookup k v [] all h = cc
    AllValues-lookup k v ((j, w) ∷ m) (here, rest) h = elim (Bool-cases (j == k)) [
      | inl same ↦ subst P (some-injective _ _ (rw same at h)) here
      | inr other ↦ AllValues-lookup k v m rest (rw other at h)
    ]

    pub AllValues-insert :
        (k : K) (v : V) (m : List (K × V)) → AllValues P m → P v → AllValues P (insert k v m)
    unfolding insert
    AllValues-insert k v [] all ok = (ok, tt)
    AllValues-insert k v ((j, w) ∷ m) (here, rest) ok = elim (Bool-cases (j == k)) [
      | inl same ↦ rw same (ok, rest)
      | inr other ↦ rw other (here, AllValues-insert k v m rest ok)
    ]

    pub AllValues-emplace :
        (k : K) (v : V) (m : List (K × V)) → AllValues P m → P v → AllValues P (emplace k v m)
    unfolding emplace
    AllValues-emplace k v [] all ok = (ok, tt)
    AllValues-emplace k v ((j, w) ∷ m) (here, rest) ok = elim (Bool-cases (j == k)) [
      | inl same ↦ rw same (here, rest)
      | inr other ↦ rw other (here, AllValues-emplace k v m rest ok)
    ]
