-- ===== src/Pool/Miner.antt =====
-- pool/pool_miner.rs: `mine_job`, the order of the pools, the delays between attempts, and what the
-- messages of a pool do to the current job. Threads are given in the order in which they end, each
-- with the number of nonces that it tries before it sees the stop flag.
pub mod Laws
use equiforge.Prelude.{
  ℕ, suc, ◌*◌, ◌/◌, ◌%◌, ◌^◌, Bool, true, false, not, ◌&&◌, ◌||◌, List, [], ◌∷◌, Bytes, Option,
  none, some, leb, ltb, if◌then◌else◌, min, ◌+u64◌, u64_mod, Result, ok, err,
}
use equiforge.Prelude.Sort.{sort_by}
use equiforge.Types.{Hash256, BlockHeader}
use equiforge.Types.Externals.{Externals, header_hash}
use equiforge.Types.Bits.{leading_zero_bits}
use equiforge.Miner.Search.{first_hit}
use equiforge.Pool.Wire.{PoolMessage, ReadError, job, job_cancel, block_found}

pub record MiningJob : Type 0 where
  pub job_id : ℕ
  pub header : BlockHeader
  pub share_target : ℕ
  pub network_target : ℕ

pub record PoolProbe : Type 0 where
  pub addr : Bytes
  pub latency_ms : ℕ
  pub reachable : Bool

module _ (ext : Externals) where
  abbrev pub hash_with : BlockHeader → ℕ → Hash256
  hash_with header nonce = header_hash ext (record header { nonce = nonce })

  abbrev pub is_share : MiningJob → ℕ → Bool
  is_share work nonce = leb work.share_target (leading_zero_bits (hash_with work.header nonce))

  -- One thread; its nonces start at its part of the range, moved by the offset, and wrap.
  unfoldable pub mine_part : MiningJob → ℕ → ℕ → ℕ × ℕ → Option ℕ
  unfolding first_hit
  mine_part work nonce_range offset (i, tries) =
      first_hit (is_share work) (min tries nonce_range) ((i * nonce_range) % u64_mod +u64 offset)

  unfoldable pub first_share : MiningJob → ℕ → ℕ → List (ℕ × ℕ) → Option (ℕ × Hash256)
  unfolding mine_part
  first_share work nonce_range offset [] = none
  first_share work nonce_range offset (thread ∷ order) =
      let later = first_share work nonce_range offset order in
      elim (mine_part work nonce_range offset thread) [
        | none ↦ later
        | some nonce ↦ some (nonce, hash_with work.header nonce)
      ]

  unfoldable pub mine_job : MiningJob → ℕ → ℕ → List (ℕ × ℕ) → Option (ℕ × Hash256)
  mine_job work threads offset order =
      first_share work (18446744073709551615 / threads) offset order

-- `Ordering::Greater`: a is to stand after b.
unfoldable pub is_worse : PoolProbe → PoolProbe → Bool
is_worse a b =
    (not a.reachable && b.reachable)
    || (not (a.reachable && not b.reachable) && ltb b.latency_ms a.latency_ms)

-- `probe_pools`, on what the probes found
unfoldable pub probe_pools : List PoolProbe → List PoolProbe
unfolding is_worse
probe_pools results = sort_by is_worse results

-- The delay after a number of failures in a row.
unfoldable pub retry_delay : ℕ → ℕ
retry_delay consecutive_failures = min (2 ^ min consecutive_failures 6) 60

unfoldable pub pause : ℕ → ℕ
unfolding retry_delay
pause consecutive_failures =
    if ltb 0 consecutive_failures then retry_delay consecutive_failures else 2

module _ {F : Type 0} where
  -- `drain_until_job`, on what is read; none is a time-out.
  unfoldable pub drain_until_job :
      Option (Result ReadError (PoolMessage F))
      → Option MiningJob
      → Result ReadError (Option MiningJob)
  drain_until_job (some (ok (job id header share_target network_target))) current = ok (
      some (record {
        job_id = id;
        header = header;
        share_target = share_target;
        network_target = network_target;
      }))
  drain_until_job (some (ok job_cancel)) current = ok none
  drain_until_job (some (ok _)) current = ok current
  drain_until_job (some (err e)) current = err e
  drain_until_job none current = ok none

  -- The answer to a share, and what is read after it where the code reads again.
  unfoldable pub on_share_answer :
      Option (Result ReadError (PoolMessage F))
      → Option (Result ReadError (PoolMessage F))
      → Option MiningJob
      → Result ReadError (Option MiningJob)
  unfolding drain_until_job
  on_share_answer (some (ok (job id header share_target network_target))) next current =
      drain_until_job (some (ok (job id header share_target network_target))) current
  on_share_answer (some (ok job_cancel)) next current = drain_until_job next none
  on_share_answer (some (ok (block_found height hash finder))) next current =
      drain_until_job next current
  on_share_answer (some (ok _)) next current = ok current
  on_share_answer (some (err e)) next current = err e
  on_share_answer none next current = ok current

  -- A message that comes while a job is mined.
  unfoldable pub on_pool_message :
      Result ReadError (PoolMessage F)
      → Option (Result ReadError (PoolMessage F))
      → Option MiningJob
      → Result ReadError (Option MiningJob)
  unfolding drain_until_job
  on_pool_message (ok (job id header share_target network_target)) next current =
      drain_until_job (some (ok (job id header share_target network_target))) current
  on_pool_message (ok job_cancel) next current = drain_until_job next none
  on_pool_message (ok _) next current = ok current
  on_pool_message (err e) next current = err e

  -- A message, or a time-out, while there is no job.
  unfoldable pub await_job :
      Option (Result ReadError (PoolMessage F)) → Result ReadError (Option MiningJob)
  await_job (some (ok (job id header share_target network_target))) = ok (
      some (record {
        job_id = id;
        header = header;
        share_target = share_target;
        network_target = network_target;
      }))
  await_job (some (ok _)) = ok none
  await_job (some (err e)) = err e
  await_job none = ok none
