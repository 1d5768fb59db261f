-- ===== src/Chain/Difficulty/Laws.antt =====
-- Bounds of the difficulty and of the work that it stands for.
use equiforge.Prelude.{ℕ, ◌^◌, ◌≤◌, ◌<◌, ◌*◌, suc, arith, min}
use native.Mathlib.Nat.{pow-le-pow_right, pow-suc}
use equiforge.Chain.Difficulty.{
  ℤ, pos, negsuc, Float, clamp_difficulty, fractional_to_integer_difficulty, block_work,
  min_difficulty, max_difficulty,
}

-- Whatever the floating-point arithmetic gives, the difficulty in a header lies between the minimum
-- and the maximum.
pub difficulty_bounds :
    {F : Type 0} (fl : Float F) (frac : F)
    → (min_difficulty ≤ fractional_to_integer_difficulty fl frac)
      × (fractional_to_integer_difficulty fl frac ≤ max_difficulty)
unfolding fractional_to_integer_difficulty
difficulty_bounds fl frac = clamped (fl.round_i32 frac)
  where
    clamped :
        (z : ℤ) → (min_difficulty ≤ clamp_difficulty z) × (clamp_difficulty z ≤ max_difficulty)
    clamped (pos n) = unfold clamp_difficulty in ground arith
    clamped (negsuc n) = unfold clamp_difficulty in omega arith

-- The work of a difficulty fits in a `u128`, does not fall as the difficulty rises, and at least
-- doubles with each further bit up to 127 bits.
pub block_work_order :
    (d e : ℕ)
    → d ≤ e
    → (block_work e < 2 ^ 128)
      × (block_work d ≤ block_work e)
      × (d < e → d < 127 → 2 * block_work d ≤ block_work e)
unfolding block_work
block_work_order d e h =
    let top = pow-le-pow_right {n = 2} (omega arith) {i = min e 127} {j = 127} (omega arith) in
    let up = pow-le-pow_right {n = 2} (omega arith) {i = min d 127} {j = min e 127} (omega arith) in
    (
      omega (arith, top),
      up,
      λ more below.
          let next =
            pow-le-pow_right {n = 2} (omega arith) {i = suc (min d 127)} {j = min e 127}
              (omega arith) in
          omega (arith, next, pow-suc 2 (min d 127)),
    )
