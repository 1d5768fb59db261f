-- ===== src/Wallet/Base58/Radix.antt =====
-- The numbers that lists of bytes and of digits stand for, and what the loops do to them.
use equiforge.Prelude.{
  ℕ, zero, suc, ◌+◌, ◌*◌, ◌/◌, ◌%◌, ◌<◌, ◌≡◌, refl, ap, ◌∙◌, arith, Bool, true, false, Bool-cases,
  ◌||◌, List, [], ◌∷◌, Bytes, All, ltb, nat_eq, is_empty, inl, inr, sym, ◌⊎◌,
}
use equiforge.Wallet.Base58.{all_zero, divide, to_digits}

-- The number of bytes behind a number, high byte first; of digits in base 58, and low digit first.
unfoldable pub value : ℕ → Bytes → ℕ
value q [] = q
value q (b ∷ bs) = value (q * 256 + b) bs

unfoldable pub number : ℕ → List ℕ → ℕ
number q [] = q
number q (d ∷ ds) = number (q * 58 + d) ds

abbrev pub low_first : List ℕ → ℕ
low_first [] = 0
low_first (d ∷ ds) = d + 58 * low_first ds

abbrev pub AreBytes : Bytes → Type 0
AreBytes = All (λ b. b < 256)

abbrev pub AreDigits : List ℕ → Type 0
AreDigits = All (λ d. d < 58)

-- The list begins with something above 0, if it begins.
abbrev pub IsTrimmed : List ℕ → Type 0
IsTrimmed [] = Unit
IsTrimmed (b ∷ bs) = 0 < b

divide-value :
    (started : Bool) (q r : ℕ) (num : Bytes)
    → (started ≡ true) ⊎ (q ≡ 0)
    → r < 58
    → AreBytes num
    → value q (divide started r num).0 * 58 + (divide started r num).1 ≡ value (q * 58 + r) num
unfolding divide value
divide-value started q r [] h small bytes = refl
divide-value started q r (byte ∷ num) h small (fits, bytes) =
    let acc = r * 256 + byte in
    let digit = acc / 58 in
    let more =
      divide-value true (q * 256 + digit % 256) (acc % 58) num (inl refl) (omega arith) bytes in
    let same : (q * 256 + digit % 256) * 58 + acc % 58 ≡ (q * 58 + r) * 256 + byte = omega arith in
    elim (Bool-cases (started || ltb 0 digit)) [
      | inl pushed ↦ rw pushed (more ∙ ap (λ n. value n num) same)
      | inr skipped ↦
          let none_yet : q ≡ 0 = ground arith in
          let less = divide-value false q (acc % 58) num (inr none_yet) (omega arith) bytes in
          let small_acc : q * 58 + acc % 58 ≡ (q * 58 + r) * 256 + byte = ground arith in
          rw skipped (less ∙ ap (λ n. value n num) small_acc)
    ]

divide-bytes :
    (started : Bool) (r : ℕ) (num : Bytes)
    → r < 58
    → AreBytes num
    → AreBytes (divide started r num).0 × ((divide started r num).1 < 58)
unfolding divide
divide-bytes started r [] small bytes = (tt, small)
divide-bytes started r (byte ∷ num) small (fits, bytes) =
    let acc = r * 256 + byte in
    let digit = acc / 58 in
    let more = divide-bytes (started || ltb 0 digit) (acc % 58) num (omega arith) bytes in
    elim (Bool-cases (started || ltb 0 digit)) [
      | inl pushed ↦ rw pushed ((omega arith, (rw pushed at more).0), (rw pushed at more).1)
      | inr skipped ↦ rw skipped (rw skipped at more)
    ]

-- A list of bytes has only zeros exactly when its number is 0.
all_zero-value : (q : ℕ) (num : Bytes) → all_zero num ≡ true → q ≡ 0 → value q num ≡ 0
unfolding all_zero value
all_zero-value q [] zeros none_yet = none_yet
all_zero-value q (b ∷ num) zeros none_yet =
    all_zero-value (q * 256 + b) num (ground arith) (ground arith)

pub value-positive : (q : ℕ) (num : Bytes) → 0 < q → 0 < value q num
unfolding value
value-positive q [] h = h
value-positive q (b ∷ num) h = value-positive (q * 256 + b) num (omega arith)

not_zero-value : (q : ℕ) (num : Bytes) → all_zero num ≡ false → 0 < value q num
unfolding all_zero value
not_zero-value q [] h = absurd (cc)
not_zero-value q (b ∷ num) h = elim (Bool-cases (nat_eq b 0)) [
  | inl none_here ↦ not_zero-value (q * 256 + b) num (ground arith)
  | inr something ↦ value-positive (q * 256 + b) num (ground arith)
]

nothing_left : (num : Bytes) → is_empty num || all_zero num ≡ true → value 0 num ≡ 0
unfolding value
nothing_left [] h = refl
nothing_left (b ∷ num) h = all_zero-value 0 (b ∷ num) h refl

-- `58 ^ n`
abbrev pub room : ℕ → ℕ
room zero = 1
room (suc n) = 58 * room n

-- The digits stand for the number of the bytes, where there are rounds enough; the highest of them
-- is not 0.
pub to_digits-value :
    (rounds : ℕ) (num : Bytes)
    → AreBytes num
    → value 0 num < room rounds
    → low_first (to_digits rounds num) ≡ value 0 num
unfolding to_digits
to_digits-value zero num bytes few = omega arith
to_digits-value (suc rounds) num bytes few =
    let (new_num, r) = divide false 0 num in
    let split = divide-value false 0 0 num (inr refl) (omega arith) bytes in
    let (new_bytes, small) = divide-bytes false 0 num (omega arith) bytes in
    elim (Bool-cases (is_empty num || all_zero num)) [
      | inl done ↦ rw done (sym (nothing_left num done))
      | inr more ↦
          rw more (omega (arith, split, to_digits-value rounds new_num new_bytes (omega arith)))
    ]

pub to_digits-AreDigits :
    (rounds : ℕ) (num : Bytes) → AreBytes num → AreDigits (to_digits rounds num)
unfolding to_digits
to_digits-AreDigits zero num bytes = tt
to_digits-AreDigits (suc rounds) num bytes =
    let (new_bytes, small) = divide-bytes false 0 num (omega arith) bytes in
    elim (Bool-cases (is_empty num || all_zero num)) [
      | inl done ↦ rw done tt
      | inr more ↦ rw more (small, to_digits-AreDigits rounds (divide false 0 num).0 new_bytes)
    ]

-- The highest digit, which comes last, is above 0.
abbrev pub IsHighest : List ℕ → Type 0
IsHighest [] = Unit
IsHighest (d ∷ []) = 0 < d
IsHighest (d ∷ e ∷ ds) = IsHighest (e ∷ ds)

IsHighest-cons : (d : ℕ) (ds : List ℕ) → IsHighest ds → 0 < low_first (d ∷ ds) → IsHighest (d ∷ ds)
IsHighest-cons d [] h pos = omega arith
IsHighest-cons d (e ∷ ds) h pos = h

positive_left : (num : Bytes) → is_empty num || all_zero num ≡ false → 0 < value 0 num
positive_left [] h = absurd (cc)
positive_left (b ∷ num) h = not_zero-value 0 (b ∷ num) h

pub to_digits-IsHighest :
    (rounds : ℕ) (num : Bytes)
    → AreBytes num
    → value 0 num < room rounds
    → IsHighest (to_digits rounds num)
unfolding to_digits
to_digits-IsHighest zero num bytes few = tt
to_digits-IsHighest (suc rounds) num bytes few =
    let (new_num, r) = divide false 0 num in
    let split = divide-value false 0 0 num (inr refl) (omega arith) bytes in
    let (new_bytes, small) = divide-bytes false 0 num (omega arith) bytes in
    let fewer : value 0 new_num < room rounds = omega arith in
    elim (Bool-cases (is_empty num || all_zero num)) [
      | inl done ↦ rw done tt
      | inr more ↦
          let pos = positive_left num more in
          let whole = to_digits-value rounds new_num new_bytes fewer in
          rw more (
            IsHighest-cons r (to_digits rounds new_num)
              (to_digits-IsHighest rounds new_num new_bytes fewer) (omega arith))
    ]
