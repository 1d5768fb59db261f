-- ===== src/Params/Supply.antt =====
-- The coins that the reward schedule of core/params.rs brings into being, block by block.
use equiforge.Prelude.{ℕ, zero, suc, ◌+◌, ◌-◌, ◌*◌, ◌/◌, ◌%◌, ◌≤◌, ◌<◌, ◌≡◌, refl, arith}
use native.Mathlib.Decide.{dec_lt}
use equiforge.Params.Rewards.{
  coin, max_supply, initial_block_reward, halving_interval, block_reward, block_reward-halves,
  block_reward_const,
}

-- The rewards of the first `n` blocks together.
pub supply : ℕ → ℕ
supply zero = 0
supply (suc n) = supply n + block_reward n

-- What the rest of the current interval and every later one can still add, at most.
abbrev to_come : ℕ → ℕ
to_come n = (2 * halving_interval - n % halving_interval) * block_reward n

one_less : (c d b : ℕ) → d ≡ suc c → b + c * b ≤ d * b
one_less c d b e = rw e (grind arith)

-- The first block of an interval has at most half of the reward before it.
boundary :
    (n : ℕ)
    → n % halving_interval ≡ 2103839
    → block_reward (suc n) + block_reward (suc n) ≤ block_reward n
boundary n e =
    let start : ℕ = suc n - halving_interval in
    let again : start + halving_interval ≡ suc n = omega arith in
    let half : block_reward (suc n) ≡ block_reward start / 2 =
      rw again at (block_reward-halves start) in
    omega (arith, half, block_reward_const start n (omega arith))

-- A block adds no more than it takes from what is to come.
to_come-falls : (n : ℕ) → block_reward n + to_come (suc n) ≤ to_come n
to_come-falls n = elim (dec_lt (n % halving_interval) 2103839) [
  | yes within ↦
      let same : block_reward (suc n) ≡ block_reward n =
        block_reward_const (suc n) n (omega arith) in
      rw same (one_less _ _ (block_reward n) (omega arith))
  | no edge ↦
      let at_edge : n % halving_interval ≡ 2103839 = omega arith in
      let at_start : suc n % halving_interval ≡ 0 = omega arith in
      rw (at_edge, at_start) (omega (arith, boundary n at_edge))
]

supply-to_come : (n : ℕ) → supply n + to_come n ≤ to_come 0
unfolding supply
supply-to_come zero = omega arith
supply-to_come (suc n) = omega (arith, supply-to_come n, to_come-falls n)

-- However many blocks are mined, no more than 210,384,000 coins come into being.
pub supply_bound : (n : ℕ) → supply n ≤ 210384000 * coin
unfolding block_reward
supply_bound n = omega (arith, supply-to_come n)

supply_first : (n : ℕ) → n ≤ halving_interval → supply n ≡ n * initial_block_reward
unfolding supply
supply_first zero h = refl
supply_first (suc n) h =
    let first : block_reward n ≡ block_reward 0 = block_reward_const n 0 (omega arith) in
    let start : block_reward 0 ≡ initial_block_reward = unfold block_reward in refl in
    omega (arith, supply_first n (omega arith), first, start)

supply_mono : (n m : ℕ) → n ≤ m → supply n ≤ supply m
unfolding supply
supply_mono zero zero h = omega arith
supply_mono (suc n) zero h = elim h [ ]
supply_mono n (suc m) h = elim (dec_lt n (suc m)) [
  | yes below ↦ omega (arith, supply_mono n m (omega arith))
  | no at ↦ let same : n ≡ suc m = omega arith in rw same (omega arith)
]

-- After 840,001 blocks or more, more coins exist than `MAX_SUPPLY` says there ever will be.
pub supply_passes_cap : (n : ℕ) → 840001 ≤ n → max_supply < supply n
supply_passes_cap n h = omega (arith, supply_first 840001 (omega arith), supply_mono 840001 n h)
