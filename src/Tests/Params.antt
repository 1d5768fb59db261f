-- ===== src/Tests/Params.antt =====
-- The reward schedule at concrete heights.
use equiforge.Prelude.{◌≤◌, ◌*◌, ◌≡◌, refl}
use equiforge.Params.Rewards.{coin, block_reward, miner_reward}
use equiforge.Params.Supply.{supply, supply_bound}

first_reward : block_reward 0 ≡ 5000000000
unfolding block_reward
first_reward = refl

first_miner_reward : miner_reward 0 ≡ 4750000000
unfolding miner_reward
first_miner_reward = refl

supply_bound_example : supply 1000000 ≤ 210384000 * coin
supply_bound_example = supply_bound 1000000
