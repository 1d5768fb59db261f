-- ===== src/Prelude/Lists.antt =====
-- Lists measured, indexed and cut by native numbers, under the library's names.
use Prim.Native.Nat.{ℕ, zero, suc, ◌+◌, ◌-◌, ◌≤◌, ◌<◌, min}
use mathlib.Core.Path.{◌≡◌, refl, ap}
use mathlib.Core.List.{List, [], ◌∷◌, ◌++◌, map}
use mathlib.Core.Bool.{Bool, true, false}
use native.Mathlib.Omega.{arith}
use native.Mathlib.Nat.{add-zero, zero-add, add-suc}
use Prim.Native.Nat.add

module _ {ℓ} {A : Type ℓ} where
  abbrev pub length : List A → ℕ
  length [] = 0
  length (x ∷ xs) = suc (length xs)

  abbrev pub get_or : List A → ℕ → A → A
  get_or [] i d = d
  get_or (x ∷ xs) zero d = x
  get_or (x ∷ xs) (suc i) d = get_or xs i d

  abbrev pub take : ℕ → List A → List A
  take zero xs = []
  take (suc n) [] = []
  take (suc n) (x ∷ xs) = x ∷ take n xs

  abbrev pub drop : ℕ → List A → List A
  drop zero xs = xs
  drop (suc n) [] = []
  drop (suc n) (x ∷ xs) = drop n xs

  abbrev pub replicate : ℕ → A → List A
  replicate zero a = []
  replicate (suc n) a = a ∷ replicate n a

  -- `Vec::is_empty`
  abbrev pub is_empty : List A → Bool
  is_empty [] = true
  is_empty (x ∷ xs) = false

  -- `&v[1..]` of a vector that is not empty
  abbrev pub rest : List A → List A
  rest [] = []
  rest (x ∷ xs) = xs

  -- The last `n` items: what stays after the items in excess of `n` are drained from the front.
  abbrev pub keep_last : ℕ → List A → List A
  keep_last n xs = drop (length xs - n) xs

  abbrev pub All {κ} : (A → Type κ) → List A → Type κ
  All P [] = Unit
  All P (x ∷ xs) = P x × All P xs

module _ {ℓ} {A : Type ℓ} where
  pub length-append : (xs ys : List A) → length (xs ++ ys) ≡ length xs + length ys
  length-append [] ys = omega arith
  length-append (x ∷ xs) ys = omega (arith, length-append xs ys)

  pub length-drop : (n : ℕ) (xs : List A) → length (drop n xs) ≡ length xs - n
  length-drop zero xs = omega arith
  length-drop (suc n) [] = omega arith
  length-drop (suc n) (x ∷ xs) = omega (arith, length-drop n xs)

  pub length-take : (n : ℕ) (xs : List A) → length (take n xs) ≡ min n (length xs)
  length-take zero xs = omega arith
  length-take (suc n) [] = omega arith
  length-take (suc n) (x ∷ xs) = omega (arith, length-take n xs)

  pub length-replicate : (n : ℕ) (a : A) → length (replicate n a) ≡ n
  length-replicate zero a = refl
  length-replicate (suc n) a = ap suc (length-replicate n a)

  pub length-keep_last : (n : ℕ) (xs : List A) → length (keep_last n xs) ≡ min n (length xs)
  length-keep_last n xs = omega (arith, length-drop (length xs - n) xs)

  pub take-append : (xs ys : List A) → take (length xs) (xs ++ ys) ≡ xs
  take-append [] ys = refl
  take-append (x ∷ xs) ys = ap (λ t. x ∷ t) (take-append xs ys)

  pub drop-append : (xs ys : List A) → drop (length xs) (xs ++ ys) ≡ ys
  drop-append [] ys = refl
  drop-append (x ∷ xs) ys = drop-append xs ys

  pub take-append_at : (n : ℕ) (xs ys : List A) → length xs ≡ n → take n (xs ++ ys) ≡ xs
  take-append_at n xs ys e = rw (← e) (take-append xs ys)

  pub drop-append_at : (n : ℕ) (xs ys : List A) → length xs ≡ n → drop n (xs ++ ys) ≡ ys
  drop-append_at n xs ys e = rw (← e) (drop-append xs ys)

  pub take-append-drop : (n : ℕ) (xs : List A) → take n xs ++ drop n xs ≡ xs
  take-append-drop zero xs = refl
  take-append-drop (suc n) [] = refl
  take-append-drop (suc n) (x ∷ xs) = ap (λ t. x ∷ t) (take-append-drop n xs)

  pub length-map {κ} : {B : Type κ} (f : A → B) (xs : List A) → length (map f xs) ≡ length xs
  length-map f [] = refl
  length-map f (x ∷ xs) = ap suc (length-map f xs)

module _ {ℓ} {A : Type ℓ} where
  -- What is left from a place in range begins with the item there.
  pub drop-cons :
      (n : ℕ) (xs : List A) (d : A) → n < length xs → drop n xs ≡ get_or xs n d ∷ drop (suc n) xs
  drop-cons zero [] d h = elim h [ ]
  drop-cons zero (x ∷ xs) d h = refl
  drop-cons (suc n) [] d h = elim h [ ]
  drop-cons (suc n) (x ∷ xs) d h = drop-cons n xs d (omega arith)

  pub drop-drop : (n k : ℕ) (xs : List A) → drop k (drop n xs) ≡ drop (k + n) xs
  drop-drop zero k xs = rw add-zero
  drop-drop (suc n) zero [] = rw zero-add
  drop-drop (suc n) (suc k) [] = rw add.suc
  drop-drop (suc n) k (x ∷ xs) = rw add-suc (drop-drop n k xs)

  pub drop_all : (n : ℕ) (xs : List A) → length xs ≤ n → drop n xs ≡ []
  drop_all zero [] h = refl
  drop_all zero (x ∷ xs) h = elim h [ ]
  drop_all (suc n) [] h = refl
  drop_all (suc n) (x ∷ xs) h = drop_all n xs (omega arith)

  pub get_or-append_at :
      (n k : ℕ) (xs ys : List A) (d : A)
      → length xs ≡ n
      → get_or (xs ++ ys) (k + n) d ≡ get_or ys k d
  get_or-append_at zero k [] ys d h = rw add-zero
  get_or-append_at zero k (x ∷ xs) ys d h = absurd (omega arith)
  get_or-append_at (suc n) k [] ys d h = absurd (omega arith)
  get_or-append_at (suc n) k (x ∷ xs) ys d h =
      rw add-suc (get_or-append_at n k xs ys d (omega arith))

  pub take_all : (n : ℕ) (xs : List A) → length xs ≤ n → take n xs ≡ xs
  take_all zero [] h = refl
  take_all zero (x ∷ xs) h = elim h [ ]
  take_all (suc n) [] h = refl
  take_all (suc n) (x ∷ xs) h = ap (λ t. x ∷ t) (take_all n xs (omega arith))

  -- Two concatenations are equal only part by part, if their first parts have one length.
  pub append_cancel :
      (xs xs' ys ys' : List A)
      → length xs ≡ length xs'
      → xs ++ ys ≡ xs' ++ ys'
      → (xs ≡ xs') × (ys ≡ ys')
  append_cancel [] [] ys ys' h e = (refl, e)
  append_cancel [] (x' ∷ xs') ys ys' h e = absurd (omega arith)
  append_cancel (x ∷ xs) [] ys ys' h e = absurd (omega arith)
  append_cancel (x ∷ xs) (x' ∷ xs') ys ys' h e =
      let (same, others) = append_cancel xs xs' ys ys' (omega arith) (cc) in (cc, others)

module _ {ℓ κ} {A : Type ℓ} (P : A → Type κ) where
  pub All-append : (xs ys : List A) → All P xs → All P ys → All P (xs ++ ys)
  All-append [] ys p q = q
  All-append (x ∷ xs) ys p q = (p.0, All-append xs ys p.1 q)

  pub All-take : (n : ℕ) (xs : List A) → All P xs → All P (take n xs)
  All-take zero xs h = tt
  All-take (suc n) [] h = tt
  All-take (suc n) (x ∷ xs) h = (h.0, All-take n xs h.1)
