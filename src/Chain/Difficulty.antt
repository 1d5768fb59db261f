-- ===== src/Chain/Difficulty.antt =====
-- core/chain.rs: the LWMA difficulty over an interface of floating-point numbers, and `block_work`.
pub mod Laws
pub mod Replay
use equiforge.Prelude.{
  ℕ, zero, suc, ◌+◌, ◌-◌, ◌^◌, Bool, List, [], ◌∷◌, if◌then◌else◌, ltb, length, keep_last, min,
  take,
}
use equiforge.Params.Rewards.{target_block_time}

-- An `i32`; `negsuc n` is -(n + 1).
pub data ℤ : Type 0 where
  pos : ℕ → ℤ
  negsuc : ℕ → ℤ

-- `f64`, with the operations that the program uses.
pub record Float (F : Type 0) : Type 0 where
  -- a literal, or `n as f64`
  pub of_ℕ : ℕ → F
  pub one_half : F
  pub add : F → F → F
  pub mul : F → F → F
  pub div : F → F → F
  pub neg : F → F
  pub ln : F → F
  pub min_of : F → F → F
  -- `x.clamp(lo, hi)`
  pub clamp : F → F → F → F
  pub eqb : F → F → Bool
  -- `a < b`, false where either is not a number
  pub less : F → F → Bool
  -- `x.round() as i32`
  pub round_i32 : F → ℤ

abbrev pub difficulty_window : ℕ
difficulty_window = 60

abbrev pub min_difficulty : ℕ
min_difficulty = 4

abbrev pub max_difficulty : ℕ
max_difficulty = 200

-- `.clamp(MIN_DIFFICULTY as i32, MAX_DIFFICULTY as i32) as u32`
unfoldable pub clamp_difficulty : ℤ → ℕ
clamp_difficulty (pos n) =
    if ltb n min_difficulty
    then min_difficulty
    else if ltb max_difficulty n
    then max_difficulty
    else n
clamp_difficulty (negsuc n) = min_difficulty

-- `1u128 << difficulty.min(127)`
unfoldable pub block_work : ℕ → ℕ
block_work difficulty = 2 ^ min difficulty 127

module _ {F : Type 0} (fl : Float F) where
  open fl use {of_ℕ, one_half, add, mul, div, neg, ln, min_of, clamp, eqb, round_i32}

  -- The loop from index `i` on, over the timestamps behind `prev`: the weighted sum of the solve
  -- times and the sum of the weights.
  unfoldable pub weigh : ℕ → F → F → ℕ → List ℕ → F × F
  weigh i weighted_sum weight_total prev [] = (weighted_sum, weight_total)
  weigh i weighted_sum weight_total prev (t ∷ ts) =
      let solve_time = t - prev in
      let clamped = clamp (of_ℕ solve_time) (of_ℕ 1) (mul (of_ℕ target_block_time) (of_ℕ 6)) in
      let weight = of_ℕ i in
      weigh (suc i) (add weighted_sum (mul clamped weight)) (add weight_total weight) t ts

  weigh_window : List ℕ → F × F
  weigh_window [] = (of_ℕ 0, of_ℕ 0)
  weigh_window (t ∷ ts) = weigh 1 (of_ℕ 0) (of_ℕ 0) t ts

  unfoldable pub calculate_next_difficulty_fractional : F → List ℕ → F
  unfolding weigh weigh_window
  calculate_next_difficulty_fractional current_frac timestamps =
      let n = length timestamps in
      let window = min n difficulty_window in
      let (weighted_sum, weight_total) = weigh_window (keep_last window timestamps) in
      let avg = div weighted_sum weight_total in
      let ratio = div avg (of_ℕ target_block_time) in
      let raw_adj = neg (div (ln ratio) (ln (of_ℕ 2))) in
      let warmup = min_of (div (of_ℕ (window - 1)) (of_ℕ difficulty_window)) (of_ℕ 1) in
      let max_adj = mul one_half warmup in
      let adj = clamp raw_adj (neg max_adj) max_adj in
      if ltb n 2
      then current_frac
      else if eqb weight_total (of_ℕ 0)
      then current_frac
      else clamp (add current_frac adj) (of_ℕ min_difficulty) (of_ℕ max_difficulty)

  unfoldable pub fractional_to_integer_difficulty : F → ℕ
  unfolding clamp_difficulty
  fractional_to_integer_difficulty frac = clamp_difficulty (round_i32 frac)

  unfoldable pub calculate_next_difficulty : ℕ → List ℕ → ℕ
  calculate_next_difficulty current timestamps =
      fractional_to_integer_difficulty
        (calculate_next_difficulty_fractional (of_ℕ current) timestamps)

  -- `for end in end..=timestamps.len()`, over the prefixes that end there; `left` of them are left.
  unfoldable pub replay_from : ℕ → ℕ → F → List ℕ → F
  replay_from zero end frac timestamps = frac
  replay_from (suc left) end frac timestamps =
      replay_from left (suc end) (calculate_next_difficulty_fractional frac (take end timestamps))
        timestamps

  -- The replay of the LWMA from the initial difficulty, over the prefixes of two timestamps or more.
  unfoldable pub replay : F → List ℕ → F
  unfolding replay_from
  replay frac timestamps = replay_from (length timestamps - 1) 2 frac timestamps
