-- ===== src/Prelude/Xor.antt =====
-- `^` on machine words: exclusive or, digit by digit, undoes itself.
use Prim.Native.Nat.{
  ℕ, zero, suc, ◌+◌, ◌*◌, ◌/◌, ◌%◌, ◌≤◌, ◌<◌, bit_xor, digits, differ, bit_xor-bitwise,
}
use mathlib.Core.Path.{◌≡◌, refl}
use native.Mathlib.Omega.{arith}

-- Two digits differ exactly when their sum is odd.
differ_lem : (x y : ℕ) → x < 2 → y < 2 → differ x y ≡ (x + y) % 2
differ_lem zero y hx hy = omega arith
differ_lem (suc zero) zero hx hy = refl
differ_lem (suc zero) (suc zero) hx hy = refl
differ_lem (suc zero) (suc (suc y)) hx hy = absurd (omega arith)
differ_lem (suc (suc x)) y hx hy = absurd (omega arith)

abbrev by_digits : ℕ → ℕ → ℕ → ℕ
by_digits n a b = digits (λ b. b) differ n a b

by_digits_fuel : (n m a b : ℕ) → a ≤ n → a ≤ m → by_digits n a b ≡ by_digits m a b
by_digits_fuel zero zero a b p q = refl
by_digits_fuel zero (suc m) zero b p q = refl
by_digits_fuel zero (suc m) (suc a) b p q = absurd (omega arith)
by_digits_fuel (suc n) zero zero b p q = refl
by_digits_fuel (suc n) zero (suc a) b p q = absurd (omega arith)
by_digits_fuel (suc n) (suc m) zero b p q = refl
by_digits_fuel (suc n) (suc m) (suc a) b p q =
    omega (arith, by_digits_fuel n m (suc a / 2) (b / 2) (omega arith) (omega arith))

zero-bit_xor : (b : ℕ) → bit_xor 0 b ≡ b
zero-bit_xor b = bit_xor-bitwise 0 b

-- The lowest digit, and the others.
pub bit_xor_step : (a b : ℕ) → bit_xor a b ≡ bit_xor (a / 2) (b / 2) * 2 + (a % 2 + b % 2) % 2
bit_xor_step zero b = omega (arith, zero-bit_xor b, zero-bit_xor (b / 2))
bit_xor_step (suc a) b = omega (
  arith,
  bit_xor-bitwise (suc a) b,
  bit_xor-bitwise (suc a / 2) (b / 2),
  by_digits_fuel a (suc a / 2) (suc a / 2) (b / 2) (omega arith) (omega arith),
  differ_lem (suc a % 2) (b % 2) (omega arith) (omega arith),
)

xor_twice_fuel : (n a b : ℕ) → a ≤ n → b ≤ n → bit_xor (bit_xor a b) b ≡ a
xor_twice_fuel zero zero zero h k = refl
xor_twice_fuel zero zero (suc b) h k = absurd (omega arith)
xor_twice_fuel zero (suc a) b h k = absurd (omega arith)
xor_twice_fuel (suc n) a b h k =
    let r = bit_xor a b in
    let high : r / 2 ≡ bit_xor (a / 2) (b / 2) = omega (arith, bit_xor_step a b) in
    let low : r % 2 ≡ (a % 2 + b % 2) % 2 = omega (arith, bit_xor_step a b) in
    let back : bit_xor (r / 2) (b / 2) ≡ a / 2 =
      rw high (xor_twice_fuel n (a / 2) (b / 2) (omega arith) (omega arith)) in
    omega (arith, bit_xor_step r b, back, low)

pub xor_twice : (a b : ℕ) → bit_xor (bit_xor a b) b ≡ a
xor_twice a b = xor_twice_fuel (a + b) a b (omega arith) (omega arith)
