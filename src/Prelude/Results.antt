-- ===== src/Prelude/Results.antt =====
-- `Result<A, E>` and the `?` operator.
use mathlib.Core.Path.{◌≡◌, refl, ap}
use mathlib.Core.Logic.{◌⊎◌, inl, inr}
use mathlib.Core.Bool.{Bool, true, false}

pub data Result (E : Type 0) (A : Type 0) : Type 0 where
  ok : A → Result E A
  err : E → Result E A

module _ {E : Type 0} where
  -- `if failed { return Err(e) }`
  abbrev pub fail_if : Bool → E → Result E (Unit {0})
  fail_if failed e = elim failed [ true ↦ err e | false ↦ ok tt ]

  module _ {A : Type 0} where
    abbrev pub is_ok : Result E A → Bool
    is_ok r = elim r [ ok _ ↦ true | err _ ↦ false ]

    pub ok-injective : (a b : A) → (let r : Result E A = ok a in r ≡ ok b) → a ≡ b
    ok-injective a b e = ap (λ (r : Result E A). elim r [ ok x ↦ x | err _ ↦ a ]) e

    pub Result-cases : (r : Result E A) → ((a : A) × (r ≡ ok a)) ⊎ ((e : E) × (r ≡ err e))
    Result-cases (ok a) = inl (a, refl)
    Result-cases (err e) = inr (e, refl)

  infixl 5 ◌>>=◌ ◌>>◌
  -- The `?` operator: the error ends the function.
  abbrev pub ◌>>=◌ : {A B : Type 0} → Result E A → (A → Result E B) → Result E B
  r >>= next = elim r [ err e ↦ err e | ok a ↦ next a ]

  abbrev pub ◌>>◌ : {A B : Type 0} → Result E A → Result E B → Result E B
  first >> second = elim first [ err e ↦ err e | ok _ ↦ second ]

  -- Where the whole succeeds, the first step did, and the rest from its value.
  pub >>=-eq-ok :
      {A B : Type 0} (r : Result E A) (next : A → Result E B) {b : B}
      → r >>= next ≡ ok b
      → (a : A) × (r ≡ ok a) × (next a ≡ ok b)
  >>=-eq-ok (err e) next found = absurd (cc)
  >>=-eq-ok (ok a) next found = (a, refl, found)
