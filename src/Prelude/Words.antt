-- ===== src/Prelude/Words.antt =====
-- Machine words as native numbers. A release build of the crate does not check overflow, so `+` on
-- a `u64` wraps; `saturating_add` and `to_le_bytes` are the standard library's.
use Prim.Native.Nat.{ℕ, zero, suc, ◌+◌, ◌-◌, ◌/◌, ◌%◌, ◌^◌, ◌<◌, min}
use mathlib.Core.Path.{◌≡◌, refl, ap}
use mathlib.Core.List.{List, [], ◌∷◌}
use native.Mathlib.Omega.{arith}
use native.Mathlib.Nat.{pow-suc}
use equiforge.Prelude.Lists.{length}

abbrev pub Bytes : Type 0
Bytes = List ℕ

abbrev pub u32_mod : ℕ
u32_mod = 4294967296

abbrev pub u64_mod : ℕ
u64_mod = 18446744073709551616

infixl 65 ◌+u64◌
-- `a + b` on `u64`
abbrev pub ◌+u64◌ : ℕ → ℕ → ℕ
a +u64 b = (a + b) % u64_mod

infixl 65 ◌-u64◌
-- `a - b` on `u64`, which wraps below 0
abbrev pub ◌-u64◌ : ℕ → ℕ → ℕ
a -u64 b = (a + (u64_mod - b % u64_mod)) % u64_mod

-- `a.saturating_add(b)` on `u64`
abbrev pub saturating_add : ℕ → ℕ → ℕ
saturating_add a b = min (a + b) 18446744073709551615

-- The `n` bytes of a number, the lowest first.
unfoldable pub le_bytes : ℕ → ℕ → Bytes
le_bytes zero x = []
le_bytes (suc n) x = (x % 256) ∷ le_bytes n (x / 256)

abbrev pub u32_le : ℕ → Bytes
u32_le = le_bytes 4

abbrev pub u64_le : ℕ → Bytes
u64_le = le_bytes 8

pub length-le_bytes : (n x : ℕ) → length (le_bytes n x) ≡ n
unfolding le_bytes
length-le_bytes zero x = refl
length-le_bytes (suc n) x = ap suc (length-le_bytes n (x / 256))

-- A number that fits is determined by its bytes.
pub le_bytes-injective :
    (n x y : ℕ) → x < 256 ^ n → y < 256 ^ n → le_bytes n x ≡ le_bytes n y → x ≡ y
unfolding le_bytes
le_bytes-injective zero x y h k e = omega arith
le_bytes-injective (suc n) x y h k e =
    let hx : x / 256 < 256 ^ n = omega (arith, pow-suc 256 n) in
    let hy : y / 256 < 256 ^ n = omega (arith, pow-suc 256 n) in
    let low : x % 256 ≡ y % 256 = cc in
    let high : x / 256 ≡ y / 256 = le_bytes-injective n (x / 256) (y / 256) hx hy (cc) in
    omega arith
