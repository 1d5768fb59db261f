-- ===== src/Params/Rewards.antt =====
-- core/params.rs: constants, `block_reward`, `community_fund_amount` and `miner_reward`.
use equiforge.Prelude.{
  ℕ, suc, ◌+◌, ◌-◌, ◌*◌, ◌/◌, ◌%◌, ◌^◌, ◌≤◌, ◌≡◌, refl, sym, arith, leb, if◌then◌else◌, u64_mod,
}
use native.Mathlib.Decide.{dec_lt}
use native.Mathlib.Nat.{pow-suc, div-div-eq-div-mul}

abbrev pub coin : ℕ
coin = 100000000

abbrev pub max_supply : ℕ
max_supply = 4200000000000000

abbrev pub initial_block_reward : ℕ
initial_block_reward = 5000000000

abbrev pub halving_interval : ℕ
halving_interval = 2103840

abbrev pub target_block_time : ℕ
target_block_time = 90

abbrev pub max_block_size : ℕ
max_block_size = 4194304

abbrev pub max_txs_per_block : ℕ
max_txs_per_block = 10000

abbrev pub initial_difficulty : ℕ
initial_difficulty = 8

abbrev pub protocol_version : ℕ
protocol_version = 4

abbrev pub community_fund_percent : ℕ
community_fund_percent = 5

abbrev pub min_tx_fee : ℕ
min_tx_fee = 1000

abbrev pub coinbase_maturity : ℕ
coinbase_maturity = 100

-- `INITIAL_BLOCK_REWARD >> halvings` is a division by a power of two.
unfoldable pub block_reward : ℕ → ℕ
block_reward height =
    let halvings = height / halving_interval in
    if leb 64 halvings then 0 else initial_block_reward / 2 ^ halvings

-- The product is on `u64`, and wraps.
unfoldable pub community_fund_amount : ℕ → ℕ
community_fund_amount reward = reward * community_fund_percent % u64_mod / 100

unfoldable pub miner_reward : ℕ → ℕ
unfolding block_reward community_fund_amount
miner_reward height = let reward = block_reward height in reward - community_fund_amount reward

-- The subtraction in `miner_reward` and in `new_coinbase` does not underflow.
pub community_fund_amount-le : (reward : ℕ) → community_fund_amount reward ≤ reward
unfolding community_fund_amount
community_fund_amount-le reward = omega arith

-- The reward after a number of halvings.
at_halvings : ℕ → ℕ
at_halvings k = if leb 64 k then 0 else initial_block_reward / 2 ^ k

at_halvings-last : at_halvings 63 ≡ 0
unfolding at_halvings
at_halvings-last = refl

div_shift : (k : ℕ) → initial_block_reward / 2 ^ suc k ≡ initial_block_reward / 2 ^ k / 2
div_shift k = rw pow-suc (sym (div-div-eq-div-mul initial_block_reward (2 ^ k) 2))

at_halvings_past : (k : ℕ) → 63 ≤ k → at_halvings k ≡ 0
at_halvings_past k h = elim (dec_lt 63 k) [
  | yes past ↦ unfold at_halvings in ground arith
  | no here ↦ let at_last : k ≡ 63 = omega arith in rw at_last at_halvings-last
]

at_halvings-suc : (k : ℕ) → at_halvings (suc k) ≡ at_halvings k / 2
at_halvings-suc k = elim (dec_lt k 63) [
  | yes early ↦ unfold at_halvings in ground (arith, div_shift k)
  | no late ↦
      omega (arith, at_halvings_past k (omega arith), at_halvings_past (suc k) (omega arith))
]

block_reward-at_halvings : (h : ℕ) → block_reward h ≡ at_halvings (h / halving_interval)
unfolding block_reward at_halvings
block_reward-at_halvings h = refl

-- One halving interval later the reward is half, rounded down, at every height.
pub block_reward-halves : (h : ℕ) → block_reward (h + halving_interval) ≡ block_reward h / 2
block_reward-halves h =
    let later : (h + halving_interval) / halving_interval ≡ suc (h / halving_interval) =
      omega arith in
    rw (block_reward-at_halvings, block_reward-at_halvings, later)
      (at_halvings-suc (h / halving_interval))

-- Within an interval the reward does not change.
pub block_reward_const :
    (h k : ℕ) → h / halving_interval ≡ k / halving_interval → block_reward h ≡ block_reward k
unfolding block_reward
block_reward_const h k e = rw e

-- The community fund and the miner share the block reward with nothing lost.
pub rewards_split :
    (h : ℕ) → miner_reward h + community_fund_amount (block_reward h) ≡ block_reward h
unfolding miner_reward
rewards_split h = omega (arith, community_fund_amount-le (block_reward h))
