-- ===== src/Chain/Headers.antt =====
-- core/chain.rs: the headers-first interface and the public accessors.
pub mod Laws
use equiforge.Prelude.{
  ℕ, zero, suc, ◌-◌, Bool, not, ◌||◌, List, [], ◌∷◌, ◌++◌, Option, none, some, nat_eq, leb,
  bytes_eq, if◌then◌else◌, min, ◌+u64◌, Result, bytes_instance, ℕ_eq, fail_if, ◌>>◌,
}
use mathlib.Core.List.{reverse}
use equiforge.Prelude.Maps.{get}
use equiforge.Params.Rewards.{initial_difficulty}
use equiforge.Types.{Hash256, null_hash, BlockHeader, Block, Transaction}
use equiforge.Types.Externals.{header_hash}
use equiforge.Types.Coinbase.{is_coinbase}
use equiforge.Types.Bits.{meets_difficulty}
use equiforge.Chain.Errors.{BlockError, invalid_transaction, coinbase_not_allowed_in_mempool}
use equiforge.Chain.Validate.{validate_transaction}
use equiforge.Chain.Difficulty.{
  replay, fractional_to_integer_difficulty, calculate_next_difficulty_fractional,
}
use equiforge.Chain.State.{Env, Chain}
use equiforge.Chain.Reorg.{chain_from_tip}
use equiforge.Chain.Accept.{timestamps_of}

module _ {F S : Type 0} (env : Env F S) where
  open env use {ext, float}

  unfoldable pub block_at_height : Chain F S → ℕ → Option Block
  block_at_height c height = elim (get c.height_index height) [
    | none ↦ none
    | some hash ↦ get c.blocks hash
  ]

  unfoldable pub validate_transaction_for_mempool :
      Chain F S → Transaction → Result BlockError (Unit {0})
  validate_transaction_for_mempool c tx = do
    fail_if (is_coinbase tx) (invalid_transaction coinbase_not_allowed_in_mempool)
    validate_transaction ext c.utxo_set tx (c.height +u64 1)

  -- `for h in start..end`, from `h` on, with `left` heights left.
  unfoldable pub collect_headers : Chain F S → ℕ → ℕ → List BlockHeader
  collect_headers c zero h = []
  collect_headers c (suc left) h =
      let further = collect_headers c left (suc h) in
      elim (get c.height_index h) [
        | none ↦ further
        | some hash ↦ elim (get c.headers hash) [ none ↦ further | some header ↦ header ∷ further ]
      ]

  unfoldable pub headers_in_range : Chain F S → ℕ → ℕ → List BlockHeader
  unfolding collect_headers
  headers_in_range c start count =
      let end = min (start +u64 count) (c.height +u64 1) in collect_headers c (end - start) start

  -- `if let Some(block)` over the hashes.
  unfoldable pub blocks_by_hashes : Chain F S → List Hash256 → List Block
  blocks_by_hashes c [] = []
  blocks_by_hashes c (h ∷ hashes) =
      let further = blocks_by_hashes c hashes in
      elim (get c.blocks h) [ none ↦ further | some block ↦ block ∷ further ]

  unfoldable pub genesis_hash : Chain F S → Hash256
  genesis_hash c = elim (get c.height_index 0) [ none ↦ null_hash | some hash ↦ hash ]

  -- The tests of one header, against the one before it.
  unfoldable pub follows : F → Hash256 → ℕ → ℕ → BlockHeader → Bool
  follows frac_diff prev_hash prev_height prev_ts h = not (
      not (bytes_eq h.prev_hash prev_hash)
      || not (nat_eq h.height (prev_height +u64 1))
      || leb h.timestamp prev_ts
      || not (nat_eq h.difficulty_target (fractional_to_integer_difficulty float frac_diff))
      || not (meets_difficulty ext h))

  -- The loop over the headers, with the timestamps so far, oldest first.
  unfoldable pub accept_headers : List ℕ → F → Hash256 → ℕ → ℕ → List BlockHeader → List Hash256
  unfolding follows
  accept_headers ts frac_diff prev_hash prev_height prev_ts [] = []
  accept_headers ts frac_diff prev_hash prev_height prev_ts (h ∷ headers) =
      let hash = header_hash ext h in
      let ts' = ts ++ h.timestamp ∷ [] in
      let further =
        accept_headers ts' (calculate_next_difficulty_fractional float frac_diff ts') hash h.height
          h.timestamp headers in
      if follows frac_diff prev_hash prev_height prev_ts h then hash ∷ further else []

  unfoldable pub validate_header_chain : Chain F S → List BlockHeader → List Hash256
  unfolding accept_headers timestamps_of
  validate_header_chain c [] = []
  validate_header_chain c (first ∷ headers) = elim (get c.headers first.prev_hash) [
    | none ↦ []
    | some parent ↦
        let ts = timestamps_of c.headers (reverse (chain_from_tip c.headers first.prev_hash)) in
        let frac_diff = replay float (float.of_ℕ initial_difficulty) ts in
        accept_headers ts frac_diff first.prev_hash parent.height parent.timestamp (first ∷ headers)
  ]
