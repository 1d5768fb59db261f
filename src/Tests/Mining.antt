-- ===== src/Tests/Mining.antt =====
-- Two threads on the block after the genesis block, and on a pool's job.
use equiforge.Prelude.{
  ℕ, ◌≡◌, ◌/◌, refl, arith, true, false, List, [], ◌∷◌, some, replicate, le_bytes, bytes_instance,
}
use equiforge.Prelude.Sort.{sort_by}
use equiforge.Types.{Block}
use equiforge.Types.Externals.{header_hash}
use equiforge.Types.Bits.{meets_difficulty, leading_zero_bits, count_zero_bits, leading_zeros}
use equiforge.Miner.Search.{
  found, with_nonce, is_hit, first_hit, mine_range, first_received, mine_block_parallel,
}
use equiforge.Miner.Search.Laws.{IsMined, mine_block_parallel-IsMined, mine_block_parallel_finds}
use equiforge.Pool.Wire.{PoolMessage, share_accepted}
use equiforge.Pool.Share.{Snapshot, judge_share, accepted_of}
use equiforge.Pool.State.{PoolState, default_config, new_pool, record_share}
use equiforge.Pool.Session.{add_worker}
use equiforge.Prelude.Maps.{get}
use equiforge.Pool.Miner.{
  MiningJob, PoolProbe, hash_with, first_share, mine_part, mine_job, probe_pools, retry_delay,
  is_worse,
}
use equiforge.Pool.Miner.Laws.{IsCredited, mine_job-judge_share}
use equiforge.Tests.Toy.{toy, whole}
use equiforge.Tests.Utxos.{carrier}
use equiforge.Tests.Blocks.{first_block}

two_threads :
    mine_block_parallel toy [] 2 ((0, 5) ∷ []) first_block ≡ some (found (with_nonce 0 first_block))
unfolding mine_block_parallel first_received mine_range first_hit meets_difficulty leading_zero_bits
    header_hash le_bytes count_zero_bits leading_zeros
two_threads = refl

mine_block_parallel-IsMined_example : IsMined toy first_block (with_nonce 0 first_block)
mine_block_parallel-IsMined_example =
    mine_block_parallel-IsMined toy [] 2 ((0, 5) ∷ []) first_block (with_nonce 0 first_block)
      (omega arith, tt) two_threads

three_hits : is_hit toy first_block 3 ≡ true
unfolding meets_difficulty leading_zero_bits header_hash le_bytes count_zero_bits leading_zeros
three_hits = refl

mine_block_parallel_finds_example :
    (block : Block) × (mine_block_parallel toy [] 2
        ((1, 4) ∷ (3 / (18446744073709551615 / 2), 18446744073709551615) ∷ [])
        first_block
      ≡ some (found block))
mine_block_parallel_finds_example =
    mine_block_parallel_finds toy [] 2 3 18446744073709551615 ((1, 4) ∷ []) [] first_block
      (omega arith) (omega arith) (omega arith) (omega arith) three_hits

abbrev work : MiningJob
work = record { job_id = 1; header = carrier.header; share_target = 4; network_target = 8 }

abbrev snap : Snapshot
snap = record { header = carrier.header; share_target = 4; network_target = 8; current_job_id = 1 }

mined : mine_job toy work 2 0 ((0, 5) ∷ []) ≡ some (0, hash_with toy carrier.header 0)
unfolding mine_job first_share mine_part first_hit leading_zero_bits header_hash le_bytes
    count_zero_bits leading_zeros
mined = refl

abbrev empty_pool : PoolState ℕ
empty_pool = new_pool (default_config whole)

-- The pool with a worker.
abbrev staffed_pool : PoolState ℕ
staffed_pool = add_worker 3 (5 ∷ []) (replicate 32 1) empty_pool

mine_job-judge_share_example :
    (let (outcome, ps) = judge_share toy whole 9 (5 ∷ []) (replicate 32 1) 0 snap staffed_pool in
      IsCredited toy 9 (5 ∷ []) (replicate 32 1) staffed_pool ps
      × (let worker =
            get (record_share 9 (5 ∷ []) (replicate 32 1) staffed_pool).workers (5 ∷ []) in
          (rate : ℕ) × (others : List (PoolMessage ℕ)) × (outcome.messages
            ≡ share_accepted (accepted_of worker) rate ∷ others)))
mine_job-judge_share_example =
    mine_job-judge_share toy whole 9 (5 ∷ []) (replicate 32 1) work 2 0 ((0, 5) ∷ []) 0
      (hash_with toy carrier.header 0) snap staffed_pool mined refl refl

-- The reachable pool comes first, the unreachable one last.
abbrev slow_probe : PoolProbe
slow_probe = record { addr = 1 ∷ []; latency_ms = 80; reachable = true }

abbrev dead_probe : PoolProbe
dead_probe = record { addr = 2 ∷ []; latency_ms = 18446744073709551615; reachable = false }

abbrev fast_probe : PoolProbe
fast_probe = record { addr = 3 ∷ []; latency_ms = 20; reachable = true }

probed :
    probe_pools (dead_probe ∷ slow_probe ∷ fast_probe ∷ [])
    ≡ fast_probe ∷ slow_probe ∷ dead_probe ∷ []
unfolding probe_pools is_worse sort_by
probed = refl

delays : retry_delay 3 ≡ 8
unfolding retry_delay
delays = refl
