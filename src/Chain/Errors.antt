-- ===== src/Chain/Errors.antt =====
-- core/chain.rs: `BlockError`. The messages of `InvalidTransaction` are a type of their own, with
-- the numbers that they are formatted from.
use equiforge.Prelude.{ℕ}
use equiforge.Script.Encoding.{ScriptError}

mutual
  pub data BlockError : Type 0 where
    duplicate_block orphan_block invalid_height invalid_prev_hash : BlockError
    invalid_timestamp timestamp_too_far_in_future : BlockError
    invalid_difficulty : ℕ → ℕ → BlockError
    insufficient_pow invalid_merkle_root block_too_large no_transactions no_coinbase : BlockError
    invalid_coinbase_amount : BlockError
    invalid_transaction : TxFault → BlockError

  pub data TxFault : Type 0 where
    empty_inputs_or_outputs coinbase_not_mature outputs_exceed_inputs : TxFault
    utxo_not_found_for_fee coinbase_not_allowed_in_mempool storage_error : TxFault
    missing_utxo bad_pubkey_len pubkey_mismatch bad_signature_at no_authorization : ℕ → TxFault
    script_fail : ℕ → ScriptError → TxFault
    fee_too_low : ℕ → TxFault
    reorg_aborted : ℕ → BlockError → TxFault
