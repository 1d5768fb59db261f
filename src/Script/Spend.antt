-- ===== src/Script/Spend.antt =====
-- core/script.rs: `validate_p2pkh_spend`.
use equiforge.Prelude.{ℕ, ◌≡◌, Bytes, bytes_eq, not, Result, ok, err, ◌>>=◌, ◌>>◌, fail_if}
use equiforge.Types.{Hash256, TxInput, TxOutput, Transaction}
use equiforge.Types.Externals.{Externals}
use equiforge.Crypto.Hashes.{pubkey_bytes_to_hash, tx_signing_hash_v1, verify_signature}
use equiforge.Crypto.Signing.{relock, signing_hash-relock}
use equiforge.Script.Encoding.{
  ScriptError, pubkey_hash_mismatch, bad_signature, parse_script_sig_p2pkh,
  parse_script_pubkey_p2pkh,
}

-- `.or_else(|_| Ok(hash))`
or_hash : Result ScriptError Hash256 → Hash256 → Result ScriptError Hash256
or_hash (ok h) hash = ok h
or_hash (err _) hash = ok hash

module _ (ext : Externals) where
  unfoldable pub validate_p2pkh_spend :
      Transaction → ℕ → TxInput → TxOutput → Result ScriptError (Unit {0})
  unfolding or_hash
  validate_p2pkh_spend tx input_index input prev_output = do
    lock_hash ←
        or_hash (parse_script_pubkey_p2pkh prev_output.script_pubkey) prev_output.pubkey_hash
    (sig64, pubkey32) ← parse_script_sig_p2pkh input.script_sig
    let derived = pubkey_bytes_to_hash ext pubkey32
    fail_if (not (bytes_eq derived lock_hash)) pubkey_hash_mismatch
    let sighash = tx_signing_hash_v1 ext tx input_index prev_output
    fail_if (not (verify_signature ext pubkey32 sighash sig64)) bad_signature
    ok tt

  -- The result of `validate_p2pkh_spend` does not depend on the locking scripts of the outputs that
  -- the transaction creates.
  pub spend-relock :
      (script : TxOutput → Bytes) (tx : Transaction) (i : ℕ) (input : TxInput) (prev : TxOutput)
      → validate_p2pkh_spend (relock script tx) i input prev ≡ validate_p2pkh_spend tx i input prev
  unfolding validate_p2pkh_spend
  spend-relock script tx i input prev = rw (signing_hash-relock ext script tx i prev)
