-- ===== src/Prelude/Tests.antt =====
-- Boolean tests on native numbers, the conditional, and equality as an interface.
use Prim.Native.Nat.{ℕ, ◌<◌, compare, Ordering}
use mathlib.Core.Path.{◌≡◌, refl}
use mathlib.Core.Logic.{◌↔◌, ◌⊎◌, inl, inr}
use mathlib.Core.Bool.{Bool, true, false, ◌&&◌}
use mathlib.Core.List.{List, [], ◌∷◌}
use mathlib.Core.Option.{Option, none, some}
use native.Mathlib.Omega.{arith}

abbrev pub ltb : ℕ → ℕ → Bool
ltb a b = elim (compare a b) [ Ordering.lt ↦ true | _ ↦ false ]

abbrev pub leb : ℕ → ℕ → Bool
leb a b = elim (compare a b) [ Ordering.gt ↦ false | _ ↦ true ]

abbrev pub nat_eq : ℕ → ℕ → Bool
nat_eq a b = elim (compare a b) [ Ordering.eq ↦ true | _ ↦ false ]

infix 1 if◌then◌else◌
abbrev pub if◌then◌else◌ {ℓ} : {A : Type ℓ} → Bool → A → A → A
if true then x else y = x
if false then x else y = y

pub ltb→lt : (a b : ℕ) → ltb a b ≡ true → a < b
ltb→lt a b h = ground arith

pub lt→ltb : (a b : ℕ) → a < b → ltb a b ≡ true
lt→ltb a b h = ground arith

pub nat_eq_iff : (a b : ℕ) → (nat_eq a b ≡ true) ↔ (a ≡ b)
nat_eq_iff a b = ground arith

pub Bool-cases : (b : Bool) → (b ≡ true) ⊎ (b ≡ false)
Bool-cases true = inl refl
Bool-cases false = inr refl

pub Option-cases {ℓ} : {A : Type ℓ} (o : Option A) → (o ≡ none) ⊎ ((a : A) × (o ≡ some a))
Option-cases none = inl refl
Option-cases (some a) = inr (a, refl)

-- `PartialEq` on the keys of maps: a test that decides equality.
pub record Eq (K : Type 0) : Type 0 where
  pub beq : K → K → Bool
  pub beq_iff : (j k : K) → (beq j k ≡ true) ↔ (j ≡ k)

infix 50 ◌==◌
abbrev pub ◌==◌ : {K : Type 0} ⦃keys : Eq K⦄ → K → K → Bool
◌==◌ ⦃keys⦄ j k = keys.beq j k

instance abbrev pub ℕ_eq : Eq ℕ
ℕ_eq = record { beq = nat_eq; beq_iff = nat_eq_iff }

unfoldable pub bytes_eq : List ℕ → List ℕ → Bool
bytes_eq [] [] = true
bytes_eq [] (y ∷ ys) = false
bytes_eq (x ∷ xs) [] = false
bytes_eq (x ∷ xs) (y ∷ ys) = nat_eq x y && bytes_eq xs ys

bytes_eq_sound : (xs ys : List ℕ) → bytes_eq xs ys ≡ true → xs ≡ ys
unfolding bytes_eq
bytes_eq_sound [] [] h = refl
bytes_eq_sound [] (y ∷ ys) h = cc
bytes_eq_sound (x ∷ xs) [] h = cc
bytes_eq_sound (x ∷ xs) (y ∷ ys) h = ground (arith, bytes_eq_sound xs ys)

pub bytes_eq_refl : (xs : List ℕ) → bytes_eq xs xs ≡ true
unfolding bytes_eq
bytes_eq_refl [] = refl
bytes_eq_refl (x ∷ xs) = ground (arith, bytes_eq_refl xs)

pub bytes_eq_iff : (xs ys : List ℕ) → (bytes_eq xs ys ≡ true) ↔ (xs ≡ ys)
bytes_eq_iff xs ys = (bytes_eq_sound xs ys, λ e. cc (e, bytes_eq_refl xs))

instance abbrev pub bytes_instance : Eq (List ℕ)
bytes_instance = record { beq = bytes_eq; beq_iff = bytes_eq_iff }
