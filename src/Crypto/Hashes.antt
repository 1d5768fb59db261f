-- ===== src/Crypto/Hashes.antt =====
-- crypto/mod.rs and crypto/txid.rs: the byte strings that are hashed, and `verify_signature`.
use equiforge.Prelude.{
  ℕ, suc, Bool, false, List, [], ◌∷◌, ◌++◌, Bytes, u32_le, u64_le, length, nat_eq, not, ◌||◌,
  if◌then◌else◌,
}
use equiforge.Types.{Hash256, TxInput, TxOutput, Transaction}
use equiforge.Types.Externals.{Externals, double_sha256}

-- b"EQF_TXID_V1", b"EQF_WTXID_V1" and b"EQF_TXSIG_V1"
abbrev pub txid_tag : Bytes
txid_tag = b'E' ∷ b'Q' ∷ b'F' ∷ b'_' ∷ b'T' ∷ b'X' ∷ b'I' ∷ b'D' ∷ b'_' ∷ b'V' ∷ b'1' ∷ []

abbrev pub wtxid_tag : Bytes
wtxid_tag = b'E' ∷ b'Q' ∷ b'F' ∷ b'_' ∷ b'W' ∷ b'T' ∷ b'X' ∷ b'I' ∷ b'D' ∷ b'_' ∷ b'V' ∷ b'1' ∷ []

abbrev pub txsig_tag : Bytes
txsig_tag = b'E' ∷ b'Q' ∷ b'F' ∷ b'_' ∷ b'T' ∷ b'X' ∷ b'S' ∷ b'I' ∷ b'G' ∷ b'_' ∷ b'V' ∷ b'1' ∷ []

-- The outpoint and the sequence of each input; the unlocking data is left out.
unfoldable pub txid_inputs : List TxInput → Bytes
txid_inputs [] = []
txid_inputs (i ∷ is) =
    i.previous_output.txid ++ u32_le i.previous_output.vout ++ u32_le i.sequence ++ txid_inputs is

unfoldable pub txid_outputs : List TxOutput → Bytes
txid_outputs [] = []
txid_outputs (o ∷ os) =
    u64_le o.amount
    ++ o.pubkey_hash
    ++ u32_le (length o.script_pubkey)
    ++ o.script_pubkey
    ++ txid_outputs os

-- The buffer that `txid_v1` hashes.
unfoldable pub txid_preimage : Transaction → Bytes
unfolding txid_inputs txid_outputs
txid_preimage tx =
    txid_tag
    ++ u32_le tx.version
    ++ u32_le (length tx.inputs)
    ++ txid_inputs tx.inputs
    ++ u32_le (length tx.outputs)
    ++ txid_outputs tx.outputs
    ++ u64_le tx.lock_time

unfoldable pub wtxid_inputs : List TxInput → Bytes
wtxid_inputs [] = []
wtxid_inputs (i ∷ is) =
    i.previous_output.txid
    ++ u32_le i.previous_output.vout
    ++ u32_le i.sequence
    ++ u32_le (length i.script_sig)
    ++ i.script_sig
    ++ wtxid_inputs is

-- The buffer that `wtxid_v1` hashes.
unfoldable pub wtxid_preimage : Transaction → Bytes
unfolding wtxid_inputs txid_outputs
wtxid_preimage tx =
    wtxid_tag
    ++ u32_le tx.version
    ++ u32_le (length tx.inputs)
    ++ wtxid_inputs tx.inputs
    ++ u32_le (length tx.outputs)
    ++ txid_outputs tx.outputs
    ++ u64_le tx.lock_time

-- The inputs from index `i` on; the one at `input_index` binds the output that it spends.
unfoldable pub signing_inputs : ℕ → TxOutput → ℕ → List TxInput → Bytes
signing_inputs input_index prev_output i [] = []
signing_inputs input_index prev_output i (input ∷ inputs) =
    input.previous_output.txid
    ++ u32_le input.previous_output.vout
    ++ u32_le input.sequence
    ++ (if nat_eq i input_index then u64_le prev_output.amount ++ prev_output.pubkey_hash else [])
    ++ signing_inputs input_index prev_output (suc i) inputs

unfoldable pub signing_outputs : List TxOutput → Bytes
signing_outputs [] = []
signing_outputs (o ∷ os) = u64_le o.amount ++ o.pubkey_hash ++ signing_outputs os

-- The buffer that `tx_signing_hash_v1` hashes.
unfoldable pub signing_preimage : Transaction → ℕ → TxOutput → Bytes
unfolding signing_inputs signing_outputs
signing_preimage tx input_index prev_output =
    txsig_tag
    ++ u32_le tx.version
    ++ u32_le (length tx.inputs)
    ++ signing_inputs input_index prev_output 0 tx.inputs
    ++ u32_le (length tx.outputs)
    ++ signing_outputs tx.outputs
    ++ u64_le tx.lock_time

module _ (ext : Externals) where
  unfoldable pub txid_v1 : Transaction → Hash256
  unfolding txid_preimage
  txid_v1 tx = double_sha256 ext (txid_preimage tx)

  unfoldable pub wtxid_v1 : Transaction → Hash256
  unfolding wtxid_preimage
  wtxid_v1 tx = double_sha256 ext (wtxid_preimage tx)

  unfoldable pub tx_signing_hash_v1 : Transaction → ℕ → TxOutput → Hash256
  unfolding signing_preimage
  tx_signing_hash_v1 tx input_index prev_output =
      double_sha256 ext (signing_preimage tx input_index prev_output)

  unfoldable pub pubkey_bytes_to_hash : Bytes → Hash256
  pubkey_bytes_to_hash pubkey = double_sha256 ext pubkey

  unfoldable pub verify_signature : Bytes → Bytes → Bytes → Bool
  verify_signature pubkey msg signature =
      if not (nat_eq (length pubkey) 32) || not (nat_eq (length signature) 64)
      then false
      else ext.ed25519_verify pubkey msg signature
