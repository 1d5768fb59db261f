-- ===== src/Wallet/Base58/Decode.antt =====
-- What the decoder's loops do to the number that the bytes stand for.
use equiforge.Prelude.{
  ℕ, zero, suc, ◌+◌, ◌*◌, ◌/◌, ◌%◌, ◌<◌, ◌≡◌, refl, ap, ◌∙◌, sym, arith, Bool-cases, inl, inr, [],
  ◌∷◌, ◌++◌, Bytes, length, ltb, ltb→lt, ◌-◌, ◌≢◌, ◌⊎◌, take, drop, take-append-drop, length-drop,
  if◌then◌else◌,
}
use equiforge.Wallet.Base58.{multiply, push_carry, take_digit}
use equiforge.Wallet.Base58.Radix.{value, value-positive, AreBytes, IsTrimmed}

multiply-bytes :
    (carry : ℕ) (num : Bytes)
    → carry < 58
    → AreBytes num
    → AreBytes (multiply carry num).0 × ((multiply carry num).1 < 58)
unfolding multiply
multiply-bytes carry [] small bytes = (tt, small)
multiply-bytes carry (byte ∷ num) small (fits, bytes) =
    let (new_bytes, new_small) = multiply-bytes carry num small bytes in
    ((omega arith, new_bytes), omega arith)

multiply-value :
    (q carry : ℕ) (num : Bytes)
    → value (q * 58 + (multiply carry num).1) (multiply carry num).0 ≡ value q num * 58 + carry
unfolding multiply value
multiply-value q carry [] = refl
multiply-value q carry (byte ∷ num) =
    let (new_num, c) = multiply carry num in
    let acc = byte * 58 + c in
    let same : (q * 58 + acc / 256) * 256 + acc % 256 ≡ (q * 256 + byte) * 58 + c = omega arith in
    ap (λ n. value n new_num) same ∙ multiply-value (q * 256 + byte) carry num

push_carry_none : (rounds : ℕ) (num : Bytes) → push_carry rounds 0 num ≡ num
unfolding push_carry
push_carry_none zero num = refl
push_carry_none (suc rounds) num = refl

-- One round is taken for a carry below 256.
push_carry_one :
    (rounds carry : ℕ) (num : Bytes)
    → carry < 256
    → push_carry (suc rounds) carry num ≡ (if ltb 0 carry then carry ∷ num else num)
unfolding push_carry
push_carry_one rounds carry num small =
    let high : carry / 256 ≡ 0 = omega arith in
    let low : carry % 256 ≡ carry = omega arith in
    rw (high, low, push_carry_none rounds (carry ∷ num)) refl

multiply-IsTrimmed :
    (carry : ℕ) (num : Bytes)
    → IsTrimmed num
    → (multiply carry num).1 ≡ 0
    → IsTrimmed (multiply carry num).0
unfolding multiply
multiply-IsTrimmed carry [] h none_over = tt
multiply-IsTrimmed carry (byte ∷ num) h none_over = omega arith

value-push : (c : ℕ) (num : Bytes) → value 0 (if ltb 0 c then c ∷ num else num) ≡ value c num
unfolding value
value-push c num = elim (Bool-cases (ltb 0 c)) [
  | inl over ↦ let once : 0 * 256 + c ≡ c = omega arith in rw over (ap (λ n. value n num) once)
  | inr none_over ↦ let same : 0 ≡ c = ground arith in rw none_over (ap (λ n. value n num) same)
]

bytes-push :
    (c : ℕ) (num : Bytes) → c < 58 → AreBytes num → AreBytes (if ltb 0 c then c ∷ num else num)
bytes-push c num small bytes = elim (Bool-cases (ltb 0 c)) [
  | inl over ↦ rw over (omega arith, bytes)
  | inr none_over ↦ rw none_over bytes
]

IsTrimmed-push :
    (c : ℕ) (num : Bytes) → (c ≡ 0 → IsTrimmed num) → IsTrimmed (if ltb 0 c then c ∷ num else num)
IsTrimmed-push c num h = elim (Bool-cases (ltb 0 c)) [
  | inl over ↦ rw over (ltb→lt 0 c over)
  | inr none_over ↦ rw none_over (h (ground arith))
]

pub take_digit-value :
    (val : ℕ) (num : Bytes)
    → val < 58
    → AreBytes num
    → value 0 (take_digit val num) ≡ value 0 num * 58 + val
unfolding take_digit
take_digit-value val num small bytes =
    let (new_num, c) = multiply val num in
    let (new_bytes, new_small) = multiply-bytes val num small bytes in
    let times = multiply-value 0 val num in
    let start : c ≡ 0 * 58 + c = omega arith in
    rw (push_carry_one 3 c new_num (omega arith))
      (value-push c new_num ∙ ap (λ n. value n new_num) start ∙ times)

pub take_digit-bytes :
    (val : ℕ) (num : Bytes) → val < 58 → AreBytes num → AreBytes (take_digit val num)
unfolding take_digit
take_digit-bytes val num small bytes =
    let (new_num, c) = multiply val num in
    let (new_bytes, new_small) = multiply-bytes val num small bytes in
    rw (push_carry_one 3 c new_num (omega arith)) (bytes-push c new_num new_small new_bytes)

pub take_digit-IsTrimmed :
    (val : ℕ) (num : Bytes)
    → val < 58
    → AreBytes num
    → IsTrimmed num
    → IsTrimmed (take_digit val num)
unfolding take_digit
take_digit-IsTrimmed val num small bytes h =
    let (new_num, c) = multiply val num in
    let (new_bytes, new_small) = multiply-bytes val num small bytes in
    rw (push_carry_one 3 c new_num (omega arith))
      (IsTrimmed-push c new_num (λ none_over. multiply-IsTrimmed val num h none_over))

value-append : (q : ℕ) (xs ys : Bytes) → value q (xs ++ ys) ≡ value (value q xs) ys
unfolding value
value-append q [] ys = refl
value-append q (x ∷ xs) ys = value-append (q * 256 + x) xs ys

-- Lists of one length have different numbers, unless they and what is before them are the same.
same_length :
    (p q : ℕ) (xs ys : Bytes)
    → length xs ≡ length ys
    → AreBytes xs
    → AreBytes ys
    → value p xs ≡ value q ys
    → (p ≡ q) × (xs ≡ ys)
unfolding value
same_length p q [] [] h bx by e = (e, refl)
same_length p q [] (y ∷ ys) h bx by e = absurd (omega arith)
same_length p q (x ∷ xs) [] h bx by e = absurd (omega arith)
same_length p q (x ∷ xs) (y ∷ ys) h (fx, bx) (fy, by) e =
    let (front, others) = same_length (p * 256 + x) (q * 256 + y) xs ys (omega arith) bx by e in
    let same : p ≡ q = omega arith in let first : x ≡ y = omega arith in (same, cc)

All-drop : (n : ℕ) (xs : Bytes) → AreBytes xs → AreBytes (drop n xs)
All-drop zero xs h = h
All-drop (suc n) [] h = tt
All-drop (suc n) (x ∷ xs) h = All-drop n xs h.1

-- A trimmed list that is longer has another number.
longer :
    (xs ys : Bytes)
    → length xs < length ys
    → AreBytes xs
    → AreBytes ys
    → IsTrimmed ys
    → value 0 xs ≢ value 0 ys
unfolding value
longer xs [] h bx by top e = absurd (omega arith)
longer xs (y ∷ ys) h bx by top e =
    let k = length ys - length xs in
    let front = value (0 * 256 + y) (take k ys) in
    let whole : value 0 (y ∷ ys) ≡ value front (drop k ys) =
      ap (value (0 * 256 + y)) (sym (take-append-drop k ys))
      ∙ value-append (0 * 256 + y) (take k ys) (drop k ys) in
    let (none_before, _) =
      same_length 0 front xs (drop k ys) (omega (arith, length-drop k ys)) bx (All-drop k ys by.1)
        (e ∙ whole) in
    absurd (omega (arith, none_before, value-positive (0 * 256 + y) (take k ys) (omega arith)))

-- A number has one list of bytes that does not begin with 0.
pub trimmed_unique :
    (xs ys : Bytes)
    → AreBytes xs
    → AreBytes ys
    → IsTrimmed xs
    → IsTrimmed ys
    → value 0 xs ≡ value 0 ys
    → xs ≡ ys
trimmed_unique xs ys bx by tx ty e = elim (lengths (length xs) (length ys)) [
  | inl same ↦ (same_length 0 0 xs ys same bx by e).1
  | inr (inl shorter) ↦ absurd (longer xs ys shorter bx by ty e)
  | inr (inr more) ↦ absurd (longer ys xs more by bx tx (sym e))
]
  where
    lengths : (a b : ℕ) → (a ≡ b) ⊎ (a < b) ⊎ (b < a)
    lengths a b = ground arith
