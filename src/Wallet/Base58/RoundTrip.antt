-- ===== src/Wallet/Base58/RoundTrip.antt =====
-- What `bs58_encode` writes, `bs58_decode` reads.
use equiforge.Prelude.{
  ℕ, zero, suc, ◌+◌, ◌*◌, ◌≤◌, ◌<◌, ◌≡◌, refl, ap, ap₂, ◌∙◌, sym, arith, Bool-cases, inl, inr, List,
  [], ◌∷◌, ◌++◌, Bytes, some, length, get_or, replicate, nat_eq, if◌then◌else◌,
}
use mathlib.Core.List.{reverse, reverse-append}
use native.Mathlib.Nat.{mul-le-mul_right}
use equiforge.Wallet.Base58.{
  base58_alphabet, count_leading, to_digits, letters, bs58_encode, position, take_digit,
  take_letters, bs58_decode,
}
use equiforge.Wallet.Base58.Radix.{
  value, number, room, AreBytes, AreDigits, IsTrimmed, to_digits-value, to_digits-AreDigits,
  to_digits-IsHighest,
}
use equiforge.Wallet.Base58.Decode.{
  take_digit-value, take_digit-bytes, take_digit-IsTrimmed, trimmed_unique,
}
use equiforge.Wallet.Base58.Letters.{
  position-letter, reverse-replicate, reverse-letters, number-reverse, AreDigits-reverse,
  IsTrimmed-reverse,
}

-- Two rounds for each byte are enough.
value-room :
    (q : ℕ) (num : Bytes) → AreBytes num → value q num < (q + 1) * room (length num + length num)
unfolding value
value-room q [] bytes = omega arith
value-room q (b ∷ num) (fits, bytes) =
    let further = value-room (q * 256 + b) num bytes in
    let n = length num in
    let twice : room (suc n + suc n) ≡ 58 * (58 * room (n + n)) =
      ap room {x = suc n + suc n} {y = suc (suc (n + n))} (omega arith) in
    let small : q * 256 + b + 1 ≤ (q + 1) * 256 = omega arith in
    rw twice (omega (arith, further, mul-le-mul_right (room (n + n)) small))

-- A list is its leading zeros and what is trimmed.
without_zeros : Bytes → Bytes
without_zeros [] = []
without_zeros (b ∷ bs) = if nat_eq b 0 then without_zeros bs else b ∷ bs

leading_split : (xs : Bytes) → replicate (count_leading 0 xs) 0 ++ without_zeros xs ≡ xs
unfolding count_leading without_zeros
leading_split [] = refl
leading_split (b ∷ bs) = elim (Bool-cases (nat_eq b 0)) [
  | inl none_here ↦
      let zero_here : 0 ≡ b = ground arith in
      rw none_here (ap (λ t. 0 ∷ t) (leading_split bs) ∙ ap (λ z. z ∷ bs) zero_here)
  | inr something ↦ rw something refl
]

without_zeros_lem :
    (xs : Bytes)
    → AreBytes xs
    → AreBytes (without_zeros xs)
      × IsTrimmed (without_zeros xs)
      × (value 0 (without_zeros xs) ≡ value 0 xs)
unfolding without_zeros value
without_zeros_lem [] h = (tt, tt, refl)
without_zeros_lem (b ∷ bs) (fits, h) = elim (Bool-cases (nat_eq b 0)) [
  | inl none_here ↦
      let (bytes, trimmed, same) = without_zeros_lem bs h in
      let zero_here : 0 ≡ 0 * 256 + b = ground arith in
      rw none_here (bytes, trimmed, same ∙ ap (λ n. value n bs) zero_here)
  | inr something ↦ rw something ((fits, h), ground arith, refl)
]

-- The decoder on what the encoder writes.
decode-nonempty :
    (encoded : Bytes) (num : Bytes)
    → take_letters [] encoded ≡ some num
    → bs58_decode encoded ≡ some (replicate (count_leading b'1' encoded) 0 ++ num)
unfolding bs58_decode take_letters count_leading
decode-nonempty [] num e = e
decode-nonempty (c ∷ encoded) num e = rw (bs58_decode, e) refl

take_letters-zeros :
    (n : ℕ) (encoded : Bytes)
    → take_letters [] (replicate n b'1' ++ encoded) ≡ take_letters [] encoded
unfolding take_letters position take_digit
take_letters-zeros zero encoded = refl
take_letters-zeros (suc n) encoded = take_letters-zeros n encoded

count_leading-zeros :
    (n : ℕ) (encoded : Bytes)
    → count_leading b'1' (replicate n b'1' ++ encoded) ≡ n + count_leading b'1' encoded
unfolding count_leading
count_leading-zeros zero encoded = omega arith
count_leading-zeros (suc n) encoded = omega (arith, count_leading-zeros n encoded)

take_letters-letters :
    (num : Bytes) (ds : List ℕ)
    → AreBytes num
    → IsTrimmed num
    → AreDigits ds
    → (out : Bytes) × (take_letters num (letters ds) ≡ some out)
      × AreBytes out
      × IsTrimmed out
      × (value 0 out ≡ number (value 0 num) ds)
unfolding take_letters letters number
take_letters-letters num [] bytes trimmed digits = (num, refl, bytes, trimmed, refl)
take_letters-letters num (d ∷ ds) bytes trimmed (small, digits) =
    let next = take_digit d num in
    let (out, got, out_bytes, out_trimmed, same) =
      take_letters-letters next ds (take_digit-bytes d num small bytes)
        (take_digit-IsTrimmed d num small bytes trimmed) digits in
    (
      out,
      (rw (take_letters, position-letter d small) got),
      out_bytes,
      out_trimmed,
      same ∙ ap (λ n. number n ds) (take_digit-value d num small bytes),
    )

one_first : position b'1' 0 base58_alphabet ≡ some 0
unfolding position
one_first = refl

letters_clear : (ds : List ℕ) → AreDigits ds → IsTrimmed ds → count_leading b'1' (letters ds) ≡ 0
unfolding letters count_leading
letters_clear [] digits trimmed = refl
letters_clear (d ∷ ds) (small, digits) top =
    elim (Bool-cases (nat_eq (get_or base58_alphabet d 0) b'1')) [
      | inl one ↦
          let first : get_or base58_alphabet d 0 ≡ b'1' = ground arith in
          let none_there =
            sym (position-letter d small) ∙ ap (λ c. position c 0 base58_alphabet) first in
          let is_zero : some d ≡ some 0 = none_there ∙ one_first in absurd (ground arith)
      | inr other ↦ rw other refl
    ]

encode-letters :
    (xs : Bytes)
    → bs58_encode xs
      ≡ replicate (count_leading 0 xs) b'1'
        ++ letters (reverse (to_digits (length xs + length xs) xs))
unfolding bs58_encode to_digits letters count_leading
encode-letters [] = refl
encode-letters (x ∷ xs) =
    let ds = to_digits (length (x ∷ xs) + length (x ∷ xs)) (x ∷ xs) in
    let z = count_leading 0 (x ∷ xs) in
    reverse-append (letters ds) (replicate z b'1')
    ∙ ap₂ (λ s t. s ++ t) (reverse-replicate z b'1') (reverse-letters ds)

-- Bytes that are encoded in base 58 are decoded again, leading zeros included.
pub bs58_decode-encode : (xs : Bytes) → AreBytes xs → bs58_decode (bs58_encode xs) ≡ some xs
unfolding value
bs58_decode-encode xs bytes =
    let rounds = length xs + length xs in
    let ds = to_digits rounds xs in
    let z = count_leading 0 xs in
    let few : value 0 xs < room rounds = omega (arith, value-room 0 xs bytes) in
    let digits = AreDigits-reverse ds (to_digits-AreDigits rounds xs bytes) in
    let top = IsTrimmed-reverse ds (to_digits-IsHighest rounds xs bytes few) in
    let (num, got, num_bytes, num_trimmed, same) =
      take_letters-letters [] (reverse ds) tt tt digits in
    let (core_bytes, core_trimmed, core_same) = without_zeros_lem xs bytes in
    let is_core : num ≡ without_zeros xs =
      trimmed_unique num (without_zeros xs) num_bytes core_bytes num_trimmed core_trimmed
        (same ∙ number-reverse ds ∙ to_digits-value rounds xs bytes few ∙ sym core_same) in
    let ones : count_leading b'1' (replicate z b'1' ++ letters (reverse ds)) ≡ z = omega (
      arith,
      count_leading-zeros z (letters (reverse ds)),
      letters_clear (reverse ds) digits top,
    ) in
    let read =
      decode-nonempty (replicate z b'1' ++ letters (reverse ds)) num
        (take_letters-zeros z (letters (reverse ds)) ∙ got) in
    ap bs58_decode (encode-letters xs)
    ∙ read
    ∙ ap (λ k. some (replicate k 0 ++ num)) ones
    ∙ ap (λ t. some (replicate z 0 ++ t)) is_core
    ∙ ap (λ t. some t) (leading_split xs)
