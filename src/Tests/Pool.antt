-- ===== src/Tests/Pool.antt =====
-- A pool with one job and two workers, and a message on the wire.
use equiforge.Prelude.{
  ℕ, ◌≤◌, ◌≡◌, refl, false, [], ◌∷◌, Bytes, some, replicate, bytes_eq, le_bytes,
}
use equiforge.Prelude.Maps.{get, insert, remove}
use equiforge.Types.{Block}
use equiforge.Types.Externals.{header_hash}
use equiforge.Types.Bits.{leading_zero_bits, count_zero_bits, leading_zeros}
use equiforge.Pool.Wire.{MessageCode, job_cancel, duplicate_nonce}
use equiforge.Pool.State.{
  PoolConfig, PoolState, default_config, new_pool, set_template, compute_share_target, record_share,
  hashrate_estimate, record_time, update_worker,
}
use equiforge.Pool.Share.{
  Snapshot, take_snapshot, process_share, rejected, has_nonce, solved_block, process_on,
  claim_nonce, judge_share, submit_block, credit, accepted_of, count_block, count_submission,
  rate_of,
}
use equiforge.Pool.Share.Laws.{Submission, process_all, process_share_once}
use equiforge.Pool.Share.Blocks.{process_share_broadcasts}
use equiforge.Pool.Session.{
  Reachable, IsBounded, add_worker, start, later, join, renew, Reachable-IsBounded,
}
use equiforge.Tests.Toy.{toy, whole}
use equiforge.Tests.Utxos.{carrier}

abbrev config : PoolConfig ℕ
config = default_config whole

abbrev ann : Bytes
ann = b'a' ∷ []

abbrev ben : Bytes
ben = b'b' ∷ []

abbrev joined : PoolState ℕ
joined = add_worker 5 ann (replicate 32 1) (new_pool config)

abbrev busy : PoolState ℕ
busy = set_template 8 carrier joined

busy-Reachable : Reachable toy whole busy
busy-Reachable =
    later (later (start config) (join 5 ann (replicate 32 1) (new_pool config)))
      (renew 8 carrier joined)

Reachable-IsBounded_example : IsBounded toy whole busy
Reachable-IsBounded_example = Reachable-IsBounded toy whole busy-Reachable

abbrev snap : Snapshot
snap = record { header = carrier.header; share_target = 4; network_target = 8; current_job_id = 1 }

snapped : take_snapshot busy ≡ some snap
unfolding take_snapshot set_template compute_share_target add_worker new_pool default_config
snapped = refl

abbrev others : Submission
others = record { now = 7; worker_name = ben; payout_hash = replicate 32 2; job_id = 1; nonce = 4 }

process_share_once_example :
    (process_share toy whole 9 ben (replicate 32 2) 1 3 (
      process_all toy whole
        (others ∷ [])
        (process_share toy whole 6 ann (replicate 32 1) 1 3 busy).1)).0
    ≡ rejected duplicate_nonce
process_share_once_example =
    process_share_once toy whole 6 9 ann ben (replicate 32 1) (replicate 32 2) 3 (others ∷ []) snap
      busy snapped

abbrev solved : Block
solved = record carrier { header = record carrier.header { nonce = 3 } }

is_sent : (process_share toy whole 6 ann (replicate 32 1) 1 3 busy).0.broadcast ≡ some solved
unfolding process_share take_snapshot set_template process_on add_worker new_pool claim_nonce
    judge_share leading_zero_bits header_hash le_bytes compute_share_target default_config
    submit_block solved_block credit record_share bytes_eq accepted_of count_block count_submission
    has_nonce rate_of hashrate_estimate record_time update_worker get insert remove count_zero_bits
    leading_zeros
is_sent = refl

process_share_broadcasts_example :
    (1 ≡ snap.current_job_id)
    × (has_nonce 3 busy.used_nonces ≡ false)
    × (solved_block 3 busy ≡ some solved)
    × (snap.network_target ≤ leading_zero_bits (header_hash toy solved.header))
    × (snap.share_target ≤ leading_zero_bits (header_hash toy solved.header))
process_share_broadcasts_example =
    process_share_broadcasts toy whole 6 ann (replicate 32 1) 1 3 snap busy solved snapped is_sent

abbrev cancels : MessageCode ℕ
cancels = record { serialize = λ m. 7 ∷ []; deserialize = λ bs. some job_cancel }
