-- ===== src/Pool/Share.antt =====
-- pool/mod.rs: `process_share`. The pool is locked for each of its sections and not between them,
-- so each section is a function here; `process_share` runs them with nothing in between.
pub mod Laws
pub mod Blocks
use equiforge.Prelude.{
  ℕ, ◌+◌, Bool, true, false, not, ◌||◌, List, [], ◌∷◌, ◌++◌, Bytes, Option, none, some, nat_eq, ltb,
  leb, bytes_eq, if◌then◌else◌, ◌+u64◌, Result, ok, err, bytes_instance,
}
use equiforge.Prelude.Maps.{get}
use equiforge.Types.{Hash256, BlockHeader, Block}
use equiforge.Types.Externals.{Externals, header_hash}
use equiforge.Types.Bits.{leading_zero_bits}
use equiforge.Chain.Difficulty.{Float}
use equiforge.Pool.Wire.{
  PoolMessage, Reason, no_active_job, duplicate_nonce, stale_job, insufficient_pow, share_accepted,
  share_rejected, block_found,
}
use equiforge.Pool.State.{Worker, PoolState, update_worker, record_share, hashrate_estimate}

-- What the first section reads.
pub record Snapshot : Type 0 where
  pub header : BlockHeader
  pub share_target : ℕ
  pub network_target : ℕ
  pub current_job_id : ℕ

-- What a share leads to: the messages to the worker, and the block for the network.
pub record Outcome (F : Type 0) : Type 0 where
  pub messages : List (PoolMessage F)
  pub broadcast : Option Block

unfoldable pub has_nonce : ℕ → List ℕ → Bool
has_nonce nonce [] = false
has_nonce nonce (n ∷ nonces) = nat_eq n nonce || has_nonce nonce nonces

-- `w.shares_submitted += 1`
unfoldable pub count_submission : Worker → Worker
count_submission w = record w { shares_submitted = w.shares_submitted +u64 1 }

unfoldable pub accepted_of : Option Worker → ℕ
accepted_of none = 0
accepted_of (some w) = w.shares_accepted

module _ {F : Type 0} where
  abbrev pub rejected : Reason → Outcome F
  rejected reason = record { messages = share_rejected reason ∷ []; broadcast = none }

  unfoldable pub take_snapshot : PoolState F → Option Snapshot
  take_snapshot ps = elim ps.current_template [
    | none ↦ none
    | some tpl ↦ some (record {
      header = tpl.header;
      share_target = ps.share_target;
      network_target = ps.network_target;
      current_job_id = ps.job_id;
    })
  ]

  -- The section on duplicates: whether the nonce is new, and the pool with it.
  unfoldable pub claim_nonce : Bytes → ℕ → PoolState F → Bool × PoolState F
  unfolding has_nonce update_worker count_submission
  claim_nonce worker_name nonce ps =
      let counted = record ps { workers = update_worker count_submission worker_name ps.workers } in
      if has_nonce nonce ps.used_nonces
      then (false, counted)
      else (true, record counted { used_nonces = nonce ∷ ps.used_nonces })

  -- The template of the pool with the nonce, read anew.
  unfoldable pub solved_block : ℕ → PoolState F → Option Block
  solved_block nonce ps = elim ps.current_template [
    | none ↦ none
    | some tpl ↦ some (record tpl { header = record tpl.header { nonce = nonce } })
  ]

  unfoldable pub count_block : PoolState F → PoolState F
  count_block ps = record ps { blocks_found = ps.blocks_found +u64 1 }

module _ {F : Type 0} (ext : Externals) (float : Float F) where
  unfoldable pub rate_of : ℕ → Option Worker → F
  rate_of share_diff none = float.of_ℕ 0
  rate_of share_diff (some w) = hashrate_estimate float share_diff w

  -- The section that credits the share, and the message that it leads to.
  unfoldable pub credit : ℕ → Bytes → Hash256 → PoolState F → PoolMessage F × PoolState F
  unfolding accepted_of rate_of
  credit now worker_name payout_hash ps =
      let ps' = record_share now worker_name payout_hash ps in
      let w = get ps'.workers worker_name in
      (share_accepted (accepted_of w) (rate_of ps'.share_target w), ps')

  -- What follows for a hash with enough zeros for the network.
  unfoldable pub submit_block :
      Bytes → ℕ → Hash256 → BlockHeader → PoolState F → Outcome F × PoolState F
  submit_block worker_name nonce hash check ps = elim (solved_block nonce ps) [
    | none ↦ (record { messages = []; broadcast = none }, ps)
    | some block ↦
        if bytes_eq (header_hash ext block.header) hash
        then (
          record {
            messages = block_found check.height (header_hash ext block.header) worker_name ∷ [];
            broadcast = some block;
          },
          count_block ps,
        )
        else (record { messages = []; broadcast = none }, ps)
  ]

  -- What follows for a nonce that is new.
  unfoldable pub judge_share :
      ℕ → Bytes → Hash256 → ℕ → Snapshot → PoolState F → Outcome F × PoolState F
  judge_share now worker_name payout_hash nonce snap ps =
      let check = record snap.header { nonce = nonce } in
      let hash = header_hash ext check in
      let zeros = leading_zero_bits hash in
      let (message, credited) = credit now worker_name payout_hash ps in
      let (found, counted) = submit_block worker_name nonce hash check credited in
      if ltb zeros snap.share_target
      then (rejected (insufficient_pow zeros snap.share_target), ps)
      else if leb snap.network_target zeros
      then (record found { messages = message ∷ found.messages }, counted)
      else (record { messages = message ∷ []; broadcast = none }, credited)

  -- What follows for a snapshot.
  unfoldable pub process_on :
      ℕ → Bytes → Hash256 → ℕ → ℕ → Snapshot → PoolState F → Outcome F × PoolState F
  process_on now worker_name payout_hash job_id nonce snap ps =
      let (fresh, claimed) = claim_nonce worker_name nonce ps in
      let judged = judge_share now worker_name payout_hash nonce snap claimed in
      if not (nat_eq job_id snap.current_job_id)
      then (rejected (stale_job job_id snap.current_job_id), ps)
      else if not fresh
      then (rejected duplicate_nonce, claimed)
      else judged

  unfoldable pub process_share : ℕ → Bytes → Hash256 → ℕ → ℕ → PoolState F → Outcome F × PoolState F
  process_share now worker_name payout_hash job_id nonce ps = elim (take_snapshot ps) [
    | none ↦ (rejected no_active_job, ps)
    | some snap ↦ process_on now worker_name payout_hash job_id nonce snap ps
  ]
