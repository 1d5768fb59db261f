-- ===== src/Types/Bits/Laws.antt =====
-- Leading zero bits and the size of the hash, read as a big-endian number.
use equiforge.Prelude.{
  ℕ, zero, suc, ◌+◌, ◌*◌, ◌^◌, ◌≤◌, ◌<◌, ◌≡◌, ◌↔◌, arith, [], ◌∷◌, Bytes, length, All,
}
use equiforge.Types.Bits.{leading_zeros, count_zero_bits, leading_zero_bits}
use native.Mathlib.Nat.{
  pow-suc, mul-lt-mul_of_pos_right, mul-le-mul_right, mul-le-mul_left, one-le-pow, pow-le-pow_right,
}
use native.Mathlib.Numerals.{towards_suc}
use native.Mathlib.Decide.{dec_lt}

-- The number that the bytes spell, the highest byte first.
pub be_value : Bytes → ℕ
be_value [] = 0
be_value (b ∷ bs) = b * 256 ^ length bs + be_value bs

mul_bytes : (b q v : ℕ) → b < 256 → v < q → b * q + v < q * 256
mul_bytes b q v h k = grind arith

be_value-lt : (bs : Bytes) → All (λ b. b < 256) bs → be_value bs < 256 ^ length bs
unfolding be_value
be_value-lt [] h = omega arith
be_value-lt (b ∷ bs) h =
    rw pow-suc (mul_bytes b (256 ^ length bs) (be_value bs) h.0 (be_value-lt bs h.1))

count_shift : (c : ℕ) (bs : Bytes) → count_zero_bits c bs ≡ c + count_zero_bits 0 bs
unfolding count_zero_bits
count_shift c [] = omega arith
count_shift c (b ∷ bs) = ground (arith, count_shift (c + 8) bs, count_shift 8 bs)

leading_zero_bits-zero : (bs : Bytes) → leading_zero_bits (0 ∷ bs) ≡ leading_zero_bits bs + 8
unfolding leading_zero_bits
leading_zero_bits-zero bs = ground (arith, count_shift 8 bs)

leading_zero_bits-nonzero :
    (b : ℕ) (bs : Bytes) → 0 < b → leading_zero_bits (b ∷ bs) ≡ leading_zeros b
unfolding leading_zero_bits
leading_zero_bits-nonzero b bs h = ground arith

byte_above : (b : ℕ) → b < 256 → (b + 1) * 2 ^ leading_zeros b ≤ 256
unfolding leading_zeros
byte_above b h = ground arith

byte_below : (b : ℕ) → 0 < b → b < 256 → 128 ≤ b * 2 ^ leading_zeros b
unfolding leading_zeros
byte_below b p h = ground arith

-- Products of a byte, a power and a remainder, as the two bounds below meet them.
above_step : (b q v p : ℕ) → (b + 1) * p ≤ 256 → v < q → 0 < p → (b * q + v) * p < q * 256
above_step b q v p h k pos =
    let below : b * q + v < (b + 1) * q = omega arith in
    omega (arith, mul-lt-mul_of_pos_right below pos, mul-le-mul_right q h)

below_step : (b q v p : ℕ) → 128 ≤ b * p → q * 256 ≤ (b * q + v) * (p * 2)
below_step b q v p h = omega (arith, mul-le-mul_right q h)

pow_pos : (k : ℕ) → 0 < 2 ^ k
pow_pos k = one-le-pow k 2 (omega arith)

pow_add_eight : (k : ℕ) → 2 ^ (k + 8) ≡ 2 ^ k * 256
pow_add_eight k = simp towards_suc (omega (arith, pow-suc 2))

-- A hash is below the bound that its leading zero bits give.
be_value-above :
    (bs : Bytes) → All (λ b. b < 256) bs → be_value bs * 2 ^ leading_zero_bits bs < 256 ^ length bs
unfolding be_value
be_value-above [] h = omega arith
be_value-above (zero ∷ bs) h =
    rw (leading_zero_bits-zero, pow_add_eight, pow-suc) (omega (arith, be_value-above bs h.1))
be_value-above (suc b ∷ bs) h =
    rw (leading_zero_bits-nonzero (suc b) bs (omega arith), pow-suc)
      (above_step (suc b) (256 ^ length bs) (be_value bs) (2 ^ leading_zeros (suc b))
        (byte_above (suc b) h.0) (be_value-lt bs h.1) (pow_pos (leading_zeros (suc b))))

be_value-zero : (bs : Bytes) → be_value (zero ∷ bs) ≡ be_value bs
unfolding be_value
be_value-zero bs = omega arith

be_value-below :
    (bs : Bytes)
    → All (λ b. b < 256) bs
    → leading_zero_bits bs < 8 * length bs
    → 256 ^ length bs ≤ be_value bs * 2 ^ suc (leading_zero_bits bs)
unfolding be_value
be_value-below [] h few = absurd (omega arith)
be_value-below (zero ∷ bs) h few =
    let more : leading_zero_bits bs < 8 * length bs = omega (arith, leading_zero_bits-zero bs) in
    let ih : 256 ^ length bs ≤ be_value bs * (2 ^ leading_zero_bits bs * 2) =
      rw pow-suc at (be_value-below bs h.1 more) in
    rw (leading_zero_bits-zero, be_value-zero, pow-suc, pow-suc, pow_add_eight) (omega arith)
be_value-below (suc b ∷ bs) h few =
    rw (leading_zero_bits-nonzero (suc b) bs (omega arith), pow-suc, pow-suc)
      (below_step (suc b) (256 ^ length bs) (be_value bs) (2 ^ leading_zeros (suc b))
        (byte_below (suc b) (omega arith) h.0))

-- For a `k` of at most eight for each byte, a string of bytes has `k` leading zero bits or more
-- exactly when the number that it spells, high byte first, times 2^k is below 256 to its length.
pub leading_zero_bits_iff :
    (bs : Bytes) (k : ℕ)
    → All (λ b. b < 256) bs
    → k ≤ 8 * length bs
    → (k ≤ leading_zero_bits bs) ↔ (be_value bs * 2 ^ k < 256 ^ length bs)
leading_zero_bits_iff bs k h lt = (
  λ few. omega (
    arith,
    be_value-above bs h,
    mul-le-mul_left (be_value bs) (pow-le-pow_right {n = 2} (omega arith) few),
  ),
  λ small. elim (dec_lt (leading_zero_bits bs) k) [
    | yes more ↦ absurd (
        omega (
          arith,
          be_value-below bs h (omega arith),
          mul-le-mul_left (be_value bs) (pow-le-pow_right {n = 2} (omega arith) more),
        ))
    | no enough ↦ omega arith
  ],
)
