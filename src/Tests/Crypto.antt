-- ===== src/Tests/Crypto.antt =====
-- Ids of concrete transactions.
use equiforge.Prelude.{◌≡◌, refl, arith, [], ◌∷◌, Bytes, replicate}
use equiforge.Types.{Transaction}
use equiforge.Crypto.Hashes.{txid_preimage}
use equiforge.Crypto.Txid.{TxFits, strip, txid_preimage-injective}

abbrev signed_by : Bytes → Transaction
signed_by signature = record {
  version = 1;
  inputs =
      record {
        previous_output = record { txid = replicate 32 5; vout = 1 };
        signature = signature;
        pubkey = replicate 32 4;
        script_sig = [];
        sequence = 9;
      }
      ∷ [];
  outputs = record { amount = 50; pubkey_hash = replicate 32 6; script_pubkey = 1 ∷ [] } ∷ [];
  lock_time = 0;
}

abbrev fits : (signature : Bytes) → TxFits (signed_by signature)
fits signature = record {
  version = omega arith;
  inputs = (record { txid = refl; vout = omega arith; sequence = omega arith }, tt);
  few_inputs = omega arith;
  outputs = (record { amount = omega arith; pubkey_hash = refl; script_pubkey = omega arith }, tt);
  few_outputs = omega arith;
  lock_time = omega arith;
}

same_preimage : txid_preimage (signed_by (1 ∷ [])) ≡ txid_preimage (signed_by (2 ∷ []))
unfolding txid_preimage
same_preimage = refl

txid_preimage-injective_example : strip (signed_by (1 ∷ [])) ≡ strip (signed_by (2 ∷ []))
txid_preimage-injective_example =
    txid_preimage-injective (signed_by (1 ∷ [])) (signed_by (2 ∷ [])) (fits (1 ∷ []))
      (fits (2 ∷ [])) same_preimage
