-- ===== src/Prelude/Sort.antt =====
-- `sort_by`, which is stable: an item goes behind those that are not to stand after it.
use Prim.Native.Nat.{ℕ, ◌+◌}
use mathlib.Core.Path.{◌≡◌, refl}
use mathlib.Core.Bool.{Bool, true, false}
use mathlib.Core.List.{List, [], ◌∷◌}
use mathlib.Core.Logic.{inl, inr}
use native.Mathlib.Omega.{arith}
use equiforge.Prelude.Tests.{if◌then◌else◌, Bool-cases}
use equiforge.Prelude.Lists.{All}

module _ {A : Type 0} where
  abbrev pub sum_by : (A → ℕ) → List A → ℕ
  sum_by weight [] = 0
  sum_by weight (x ∷ xs) = weight x + sum_by weight xs

module _ {A : Type 0} (after : A → A → Bool) where
  -- `after y x`: y is to stand after x.
  unfoldable pub place : A → List A → List A
  place x [] = x ∷ []
  place x (y ∷ ys) = let further = place x ys in if after y x then x ∷ y ∷ ys else y ∷ further

  unfoldable pub sort_onto : List A → List A → List A
  unfolding place
  sort_onto sorted [] = sorted
  sort_onto sorted (x ∷ xs) = sort_onto (place x sorted) xs

  unfoldable pub sort_by : List A → List A
  unfolding sort_onto
  sort_by xs = sort_onto [] xs

  -- No item is to stand after the next one.
  abbrev pub IsSorted : List A → Type 0
  IsSorted [] = Unit
  IsSorted (x ∷ []) = Unit
  IsSorted (x ∷ y ∷ ys) = (after x y ≡ false) × IsSorted (y ∷ ys)

  place-IsSorted :
      (x : A) (ys : List A)
      → ((a b : A) → after a b ≡ true → after b a ≡ false)
      → IsSorted ys
      → IsSorted (place x ys)
  unfolding place
  place-IsSorted x [] asym h = tt
  place-IsSorted x (y ∷ []) asym h = elim (Bool-cases (after y x)) [
    | inl before ↦ rw before (asym y x before, tt)
    | inr behind ↦ rw behind (behind, tt)
  ]
  place-IsSorted x (y ∷ z ∷ ys) asym h = elim (Bool-cases (after y x)) [
    | inl before ↦ rw before (asym y x before, h)
    | inr behind ↦
        let further = place-IsSorted x (z ∷ ys) asym h.1 in
        rw behind (elim (Bool-cases (after z x)) [
          | inl before ↦ rw before (behind, (rw before at further))
          | inr also ↦ rw also (h.0, (rw also at further))
        ])
  ]

  sort_onto-IsSorted :
      (sorted xs : List A)
      → ((a b : A) → after a b ≡ true → after b a ≡ false)
      → IsSorted sorted
      → IsSorted (sort_onto sorted xs)
  unfolding sort_onto
  sort_onto-IsSorted sorted [] asym h = h
  sort_onto-IsSorted sorted (x ∷ xs) asym h =
      sort_onto-IsSorted (place x sorted) xs asym (place-IsSorted x sorted asym h)

  pub sort_by-IsSorted :
      (xs : List A) → ((a b : A) → after a b ≡ true → after b a ≡ false) → IsSorted (sort_by xs)
  unfolding sort_by
  sort_by-IsSorted xs asym = sort_onto-IsSorted [] xs asym tt

  -- How many items pass a test.
  abbrev pub tally : (A → Bool) → List A → ℕ
  tally p [] = 0
  tally p (x ∷ xs) = (if p x then 1 else 0) + tally p xs

  tally-place :
      (p : A → Bool) (x : A) (ys : List A)
      → tally p (place x ys) ≡ (if p x then 1 else 0) + tally p ys
  unfolding place
  tally-place p x [] = refl
  tally-place p x (y ∷ ys) = elim (Bool-cases (after y x)) [
    | inl before ↦ rw before refl
    | inr behind ↦ rw behind (omega (arith, tally-place p x ys))
  ]

  tally-sort_onto :
      (p : A → Bool) (sorted xs : List A)
      → tally p (sort_onto sorted xs) ≡ tally p sorted + tally p xs
  unfolding sort_onto
  tally-sort_onto p sorted [] = omega arith
  tally-sort_onto p sorted (x ∷ xs) =
      omega (arith, tally-sort_onto p (place x sorted) xs, tally-place p x sorted)

  pub tally-sort_by : (p : A → Bool) (xs : List A) → tally p (sort_by xs) ≡ tally p xs
  unfolding sort_by
  tally-sort_by p xs = omega (arith, tally-sort_onto p [] xs)

  module _ (P : A → Type 0) where
    All-place : (x : A) (ys : List A) → P x → All P ys → All P (place x ys)
    unfolding place
    All-place x [] p h = (p, tt)
    All-place x (y ∷ ys) p h = elim (Bool-cases (after y x)) [
      | inl before ↦ rw before (p, (h.0, h.1))
      | inr behind ↦ rw behind (h.0, All-place x ys p h.1)
    ]

    All-sort_onto : (sorted xs : List A) → All P sorted → All P xs → All P (sort_onto sorted xs)
    unfolding sort_onto
    All-sort_onto sorted [] hs h = hs
    All-sort_onto sorted (x ∷ xs) hs h =
        All-sort_onto (place x sorted) xs (All-place x sorted h.0 hs) h.1

    -- What holds of every item holds of every item when they are sorted.
    pub All-sort_by : (xs : List A) → All P xs → All P (sort_by xs)
    unfolding sort_by
    All-sort_by xs h = All-sort_onto [] xs tt h

  module _ (weight : A → ℕ) where
    sum_by-place : (x : A) (ys : List A) → sum_by weight (place x ys) ≡ weight x + sum_by weight ys
    unfolding place
    sum_by-place x [] = refl
    sum_by-place x (y ∷ ys) = elim (Bool-cases (after y x)) [
      | inl before ↦ rw before refl
      | inr behind ↦ rw behind (omega (arith, sum_by-place x ys))
    ]

    sum_by-sort_onto :
        (sorted xs : List A)
        → sum_by weight (sort_onto sorted xs) ≡ sum_by weight sorted + sum_by weight xs
    unfolding sort_onto
    sum_by-sort_onto sorted [] = omega arith
    sum_by-sort_onto sorted (x ∷ xs) =
        omega (arith, sum_by-sort_onto (place x sorted) xs, sum_by-place x sorted)

    -- Sorting keeps a sum.
    pub sum_by-sort_by : (xs : List A) → sum_by weight (sort_by xs) ≡ sum_by weight xs
    unfolding sort_by
    sum_by-sort_by xs = omega (arith, sum_by-sort_onto [] xs)
