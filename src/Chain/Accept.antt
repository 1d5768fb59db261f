-- ===== src/Chain/Accept.antt =====
-- core/chain.rs: `add_block`, `difficulty_for_block_on_parent` and `next_difficulty`.
pub mod Laws
use equiforge.Prelude.{
  ℕ, ◌+◌, ◌%◌, ◌^◌, Bool, true, false, not, ◌&&◌, List, [], ◌∷◌, ◌++◌, Option, none, some, Result,
  ok, err, nat_eq, ltb, leb, bytes_eq, if◌then◌else◌, is_empty, keep_last, ◌+u64◌, fail_if,
  bytes_instance, ℕ_eq,
}
use mathlib.Core.List.{reverse}
use equiforge.Prelude.Maps.{Map, get, insert, contains_key}
use equiforge.Params.Rewards.{initial_difficulty, max_block_size}
use equiforge.Types.{Hash256, BlockHeader, Block, Transaction}
use equiforge.Types.Externals.{header_hash, block_size}
use equiforge.Types.Coinbase.{is_coinbase}
use equiforge.Types.Bits.{meets_difficulty}
use equiforge.Types.Merkle.{validate_merkle_root}
use equiforge.Chain.Utxo.{UtxoSet, BlockUndo}
use equiforge.Chain.Errors.{
  BlockError, duplicate_block, orphan_block, invalid_height, invalid_timestamp,
  timestamp_too_far_in_future, invalid_difficulty, insufficient_pow, invalid_merkle_root,
  block_too_large, no_transactions, no_coinbase,
}
use equiforge.Chain.Connect.{connect_block_utxos}
use equiforge.Chain.Difficulty.{
  replay, fractional_to_integer_difficulty, calculate_next_difficulty_fractional, block_work,
}
use equiforge.Chain.State.{Env, Chain}
use equiforge.Chain.Action.{Action, pure, raise, check, modify, ◌>>=◌, ◌>>◌}
use equiforge.Chain.Persist.{persist_block_only, persist_tip_extension}
use equiforge.Chain.BlockRules.{validate_block_transactions}
use equiforge.Chain.Reorg.{chain_from_tip, max_timestamps, ok_or, reorg_to}

-- The timestamps of the headers that are there, in the order of the hashes.
unfoldable pub timestamps_of : Map Hash256 BlockHeader → List Hash256 → List ℕ
timestamps_of headers [] = []
timestamps_of headers (h ∷ hashes) =
    let further = timestamps_of headers hashes in
    elim (get headers h) [ none ↦ further | some header ↦ header.timestamp ∷ further ]

-- The first transaction is a coinbase, of a list that is not empty.
unfoldable pub begins_with_coinbase : List Transaction → Bool
begins_with_coinbase [] = false
begins_with_coinbase (tx ∷ _) = is_coinbase tx

abbrev pub or_zero : Option ℕ → ℕ
or_zero none = 0
or_zero (some n) = n

abbrev pub or_empty : Option (List Hash256) → List Hash256
or_empty none = []
or_empty (some hashes) = hashes

module _ {F S : Type 0} (env : Env F S) where
  open env use {ext, float, db}

  unfoldable pub next_difficulty : Chain F S → ℕ
  next_difficulty c = fractional_to_integer_difficulty float c.fractional_difficulty

  -- The walk back is that of `chain_from_tip`.
  unfoldable pub difficulty_for_block_on_parent : Chain F S → Hash256 → ℕ
  unfolding timestamps_of
  difficulty_for_block_on_parent c parent_hash =
      let timestamps = timestamps_of c.headers (reverse (chain_from_tip c.headers parent_hash)) in
      fractional_to_integer_difficulty float
        (replay float (float.of_ℕ initial_difficulty) timestamps)

  unfoldable pub expected_difficulty : Chain F S → Hash256 → ℕ
  expected_difficulty c parent_hash =
      if bytes_eq parent_hash c.tip
      then next_difficulty c
      else difficulty_for_block_on_parent c parent_hash

  -- Steps 1 to 9: the checks of the header, the proof of work and the shape of the block. The
  -- parent's header comes back.
  unfoldable pub check_block : ℕ → Block → Action (Chain F S) BlockHeader
  unfolding begins_with_coinbase
  check_block now block = do
    let header = block.header
    check (λ c. fail_if (contains_key c.blocks (header_hash ext header)) duplicate_block)
    parent ← check (λ c. ok_or (get c.headers header.prev_hash) orphan_block)
    check (λ c. fail_if (not (nat_eq header.height (parent.height +u64 1))) invalid_height)
    check (λ c. fail_if (leb header.timestamp parent.timestamp) invalid_timestamp)
    check (λ c.
        fail_if
          (not (nat_eq header.timestamp (parent.timestamp +u64 1))
            && ltb (now +u64 7200) header.timestamp)
          timestamp_too_far_in_future)
    check (λ c.
        let expected = expected_difficulty c header.prev_hash in
        fail_if (not (nat_eq header.difficulty_target expected))
          (invalid_difficulty expected header.difficulty_target))
    check (λ c. fail_if (not (meets_difficulty ext header)) insufficient_pow)
    check (λ c. fail_if (not (validate_merkle_root ext block)) invalid_merkle_root)
    check (λ c. fail_if (ltb max_block_size (block_size ext block)) block_too_large)
    check (λ c. fail_if (is_empty block.transactions) no_transactions)
    check (λ c. fail_if (not (begins_with_coinbase block.transactions)) no_coinbase)
    pure parent

  -- The block becomes the tip.
  unfoldable pub commit_tip : Hash256 → Block → Chain F S → BlockUndo × Chain F S
  commit_tip block_hash block c =
      let (set, undo) = connect_block_utxos ext c.utxo_set block in
      let timestamps =
        keep_last max_timestamps (c.recent_timestamps ++ block.header.timestamp ∷ []) in
      (
        undo,
        record c {
          height_index = insert block.header.height block_hash c.height_index;
          utxo_set = set;
          undo_cache = insert block_hash undo c.undo_cache;
          tip = block_hash;
          height = block.header.height;
          recent_timestamps = timestamps;
          fractional_difficulty =
              calculate_next_difficulty_fractional float c.fractional_difficulty timestamps;
        },
      )

  -- The work of a block is its parent's and its own, on `u128`.
  unfoldable pub new_work : Block → Chain F S → ℕ
  new_work block c =
      (or_zero (get c.cumulative_work block.header.prev_hash)
        + block_work block.header.difficulty_target)
      % 2 ^ 128

  -- The block and its header are stored under the block's hash, with its work, and the block is a
  -- child of its parent.
  unfoldable pub index_block : Hash256 → Block → Chain F S → Chain F S
  unfolding new_work
  index_block block_hash block c =
      let parent_hash = block.header.prev_hash in
      let siblings = or_empty (get c.children parent_hash) in
      persist_block_only env block_hash block (record c {
        headers = insert block_hash block.header c.headers;
        blocks = insert block_hash block c.blocks;
        cumulative_work = insert block_hash (new_work block c) c.cumulative_work;
        children = insert parent_hash (siblings ++ block_hash ∷ []) c.children;
      })

  unfoldable pub extend_tip : Hash256 → Block → Action (Chain F S) Hash256
  extend_tip block_hash block = do
    check (λ c. validate_block_transactions ext c.utxo_set block)
    undo ← (λ c. let (undo, c') = commit_tip block_hash block c in (ok undo, c'))
    modify (index_block block_hash block)
    modify (persist_tip_extension env block_hash block undo)
    pure block_hash

  unfoldable pub extend_side : Hash256 → Block → Action (Chain F S) Hash256
  extend_side block_hash block = do
    work ← check (λ c. ok (new_work block c))
    modify (index_block block_hash block)
    tip_work ← check (λ c. ok (or_zero (get c.cumulative_work c.tip)))
    if ltb tip_work work then reorg_to env block_hash else pure tt
    pure block_hash

  unfoldable pub add_block : ℕ → Block → Action (Chain F S) Hash256
  add_block now block = do
    let block_hash = header_hash ext block.header
    check_block now block
    extends_tip ← check (λ c. ok (bytes_eq block.header.prev_hash c.tip))
    if extends_tip then extend_tip block_hash block else extend_side block_hash block
