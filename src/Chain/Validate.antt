-- ===== src/Chain/Validate.antt =====
-- core/chain.rs: `validate_transaction` and `calculate_block_fees`; wallet/mod.rs:
-- `tx_signing_hash`, which the legacy authorisation checks.
pub mod Laws
pub mod Relock
use equiforge.Prelude.{
  ℕ, suc, ◌+◌, ◌-◌, Bool, true, ◌&&◌, ◌||◌, not, List, [], ◌∷◌, Option, none, some, nat_eq, ltb,
  bytes_eq, if◌then◌else◌, length, is_empty, rest, saturating_add, ◌+u64◌, Result, ok, err, ◌>>=◌,
  ◌>>◌, fail_if,
}
use equiforge.Prelude.Maps.{get}
use equiforge.Params.Rewards.{coinbase_maturity, min_tx_fee}
use equiforge.Types.{Hash256, TxInput, Transaction, Block, outpoint_instance}
use equiforge.Types.Externals.{Externals, double_sha256}
use equiforge.Types.Coinbase.{total_output}
use equiforge.Crypto.Hashes.{pubkey_bytes_to_hash, verify_signature}
use equiforge.Script.Encoding.{ScriptError}
use equiforge.Script.Spend.{validate_p2pkh_spend}
use equiforge.Chain.Utxo.{UtxoEntry, UtxoSet}
use equiforge.Chain.Errors.{
  BlockError, TxFault, invalid_transaction, empty_inputs_or_outputs, coinbase_not_mature,
  outputs_exceed_inputs, utxo_not_found_for_fee, missing_utxo, bad_pubkey_len, pubkey_mismatch,
  bad_signature_at, no_authorization, script_fail, fee_too_low,
}

-- The inputs of `tx_copy`, from index `i` on: no signatures, and one public key.
unfoldable pub legacy_inputs : ℕ → ℕ → List TxInput → List TxInput
legacy_inputs input_index i [] = []
legacy_inputs input_index i (input ∷ inputs) =
    record input { signature = []; pubkey = if nat_eq i input_index then input.pubkey else [] }
    ∷ legacy_inputs input_index (suc i) inputs

abbrev pub fault : {A : Type 0} → TxFault → Result BlockError A
fault f = err (invalid_transaction f)

-- `.map_err(|e| script fail)`
script_result : ℕ → Result ScriptError (Unit {0}) → Result BlockError (Unit {0})
script_result idx (ok t) = ok t
script_result idx (err e) = fault (script_fail idx e)

module _ (ext : Externals) where
  unfoldable pub tx_signing_hash : Transaction → ℕ → Hash256
  unfolding legacy_inputs
  tx_signing_hash tx input_index =
      double_sha256 ext
        (ext.serialize_tx (record tx { inputs = legacy_inputs input_index 0 tx.inputs }))

  -- The legacy branch of the authorisation.
  unfoldable pub authorize_legacy :
      Transaction → ℕ → TxInput → UtxoEntry → Result BlockError (Unit {0})
  authorize_legacy tx idx input utxo = do
    fail_if (not (nat_eq (length input.pubkey) 32)) (invalid_transaction (bad_pubkey_len idx))
    let claimed_hash = pubkey_bytes_to_hash ext input.pubkey
    fail_if (not (bytes_eq claimed_hash utxo.output.pubkey_hash))
        (invalid_transaction (pubkey_mismatch idx))
    let signing_hash = tx_signing_hash tx idx
    fail_if (not (verify_signature ext input.pubkey signing_hash input.signature))
        (invalid_transaction (bad_signature_at idx))

  unfoldable pub authorize : Transaction → ℕ → TxInput → UtxoEntry → Result BlockError (Unit {0})
  unfolding authorize_legacy script_result
  authorize tx idx input utxo =
      if not (is_empty input.script_sig)
      then script_result idx (validate_p2pkh_spend ext tx idx input utxo.output)
      else if not (is_empty input.pubkey)
      then authorize_legacy tx idx input utxo
      else fault (no_authorization idx)

  -- `utxo.is_coinbase && block_height.saturating_sub(utxo.height) < COINBASE_MATURITY`
  abbrev pub is_immature : UtxoEntry → ℕ → Bool
  is_immature utxo block_height =
      utxo.is_coinbase && ltb (block_height - utxo.height) coinbase_maturity

  -- The body of the loop: what the input adds to `input_sum`.
  unfoldable pub validate_input :
      UtxoSet → Transaction → ℕ → ℕ → TxInput → Option UtxoEntry → Result BlockError ℕ
  validate_input set tx block_height idx input none = fault (missing_utxo idx)
  validate_input set tx block_height idx input (some utxo) = do
    fail_if (is_immature utxo block_height) (invalid_transaction coinbase_not_mature)
    authorize tx idx input utxo
    ok utxo.output.amount

  -- The loop over the inputs from index `idx` on; `input_sum` saturates.
  unfoldable pub validate_inputs :
      UtxoSet → Transaction → ℕ → ℕ → ℕ → List TxInput → Result BlockError ℕ
  unfolding validate_input
  validate_inputs set tx block_height idx input_sum [] = ok input_sum
  validate_inputs set tx block_height idx input_sum (input ∷ inputs) = do
    amount ← validate_input set tx block_height idx input (get set input.previous_output)
    validate_inputs set tx block_height (suc idx) (saturating_add input_sum amount) inputs

  unfoldable pub validate_transaction : UtxoSet → Transaction → ℕ → Result BlockError (Unit {0})
  unfolding validate_inputs
  validate_transaction set tx block_height = do
    fail_if (is_empty tx.inputs || is_empty tx.outputs)
        (invalid_transaction empty_inputs_or_outputs)
    input_sum ← validate_inputs set tx block_height 0 0 tx.inputs
    let output_sum = total_output tx
    fail_if (ltb input_sum output_sum) (invalid_transaction outputs_exceed_inputs)
    let fee = input_sum - output_sum
    fail_if (ltb fee min_tx_fee) (invalid_transaction (fee_too_low fee))

-- The inner loop of `calculate_block_fees`; the sum is on `u64`, and wraps.
unfoldable pub fee_inputs : UtxoSet → ℕ → List TxInput → Result BlockError ℕ
fee_inputs set input_sum [] = ok input_sum
fee_inputs set input_sum (input ∷ inputs) = elim (get set input.previous_output) [
  | none ↦ fault utxo_not_found_for_fee
  | some utxo ↦ fee_inputs set (input_sum +u64 utxo.output.amount) inputs
]

unfoldable pub sum_fees : UtxoSet → ℕ → List Transaction → Result BlockError ℕ
unfolding fee_inputs
sum_fees set total_fees [] = ok total_fees
sum_fees set total_fees (tx ∷ txs) = do
  input_sum ← fee_inputs set 0 tx.inputs
  let output_sum = total_output tx
  fail_if (ltb input_sum output_sum) (invalid_transaction outputs_exceed_inputs)
  sum_fees set (total_fees +u64 (input_sum - output_sum)) txs

unfoldable pub calculate_block_fees : UtxoSet → Block → Result BlockError ℕ
unfolding sum_fees
calculate_block_fees set block = sum_fees set 0 (rest block.transactions)
