-- ===== src/Wallet/Send.antt =====
-- wallet/mod.rs: `create_send_tx`.
pub mod Sign
pub mod Inputs
pub mod Laws
use equiforge.Prelude.{
  ℕ, Bool, List, [], ◌∷◌, ◌++◌, map, none, some, ltb, nat_eq, not, if◌then◌else◌, length, ◌+u64◌,
  ◌-u64◌, Result, ok, err, ◌>>=◌, ◌>>◌, fail_if,
}
use equiforge.Types.{Hash256, TxInput, TxOutput, Transaction}
use equiforge.Types.Externals.{Externals}
use equiforge.Crypto.Hashes.{tx_signing_hash_v1}
use equiforge.Script.Encoding.{script_p2pkh, script_sig_p2pkh}
use equiforge.Chain.Utxo.{UtxoSet}
use equiforge.Wallet.Keys.{Signer, Keypair, public_key_bytes, pubkey_hash_of, keypair_for_hash}
use equiforge.Wallet.Coins.{Coin, Shortfall, amount_of, select_utxos}

-- The errors, and the two places that panic: `expect("UTXO not owned")` and `keypairs[0]`.
pub data SendError : Type 0 where
  short : Shortfall → SendError
  signature_size pubkey_size not_owned no_keypair : SendError

-- `.sum()` on `u64`, which wraps.
unfoldable pub total_input : List Coin → ℕ
total_input [] = 0
total_input (coin ∷ coins) = amount_of coin +u64 total_input coins

unfoldable pub output_to : Hash256 → ℕ → TxOutput
output_to hash amount = record {
  amount = amount;
  pubkey_hash = hash;
  script_pubkey = script_p2pkh hash;
}

-- An input before it is signed.
unfoldable pub unsigned_input : Coin → TxInput
unsigned_input coin = record {
  previous_output = coin.0;
  signature = [];
  pubkey = [];
  script_sig = [];
  sequence = 0xFFFFFFFF;
}

-- `?` on the error of `select_utxos`
unfoldable pub or_short : {A : Type 0} → Result Shortfall A → Result SendError A
or_short (ok a) = ok a
or_short (err e) = err (short e)

module _ (ext : Externals) (signer : Signer) where
  -- What the loop writes into the input at an index.
  unfoldable pub signed_input : Transaction → ℕ → Keypair → Coin → TxInput
  signed_input tx i kp coin =
      let sig_vec = signer.sign kp.secret (tx_signing_hash_v1 ext tx i coin.1.output) in
      let pubkey_vec = public_key_bytes ext signer kp in
      record (unsigned_input coin) {
        script_sig = script_sig_p2pkh sig_vec pubkey_vec;
        signature = sig_vec;
        pubkey = pubkey_vec;
      }

  -- The two conversions into arrays.
  unfoldable pub sized_input : TxInput → Result SendError TxInput
  sized_input input = do
    fail_if (not (nat_eq (length input.signature) 64)) signature_size
    fail_if (not (nat_eq (length input.pubkey) 32)) pubkey_size
    ok input

  -- The body of the loop, at the index after the inputs that are signed already.
  unfoldable pub sign_input : List Keypair → Transaction → ℕ → Coin → Result SendError TxInput
  unfolding sized_input signed_input
  sign_input keypairs tx i coin =
      elim (keypair_for_hash ext signer keypairs coin.1.output.pubkey_hash) [
        | none ↦ err not_owned
        | some kp ↦ sized_input (signed_input tx i kp coin)
      ]

  -- The loop: the inputs that are signed, and the coins whose inputs are not.
  unfoldable pub sign_inputs :
      List Keypair → Transaction → List TxInput → List Coin → Result SendError Transaction
  sign_inputs keypairs tx signed [] = ok (record tx { inputs = signed })
  sign_inputs keypairs tx signed (coin ∷ coins) = do
    let current = record tx { inputs = signed ++ map unsigned_input (coin ∷ coins) }
    input ← sign_input keypairs current (length signed) coin
    sign_inputs keypairs tx (signed ++ input ∷ []) coins

  -- The output for the change, where there is any.
  unfoldable pub change_outputs : List Keypair → ℕ → Result SendError (List TxOutput)
  change_outputs [] change = if ltb 0 change then err no_keypair else ok []
  change_outputs (kp ∷ keypairs) change =
      ok (if ltb 0 change then output_to (pubkey_hash_of ext signer kp) change ∷ [] else [])

  unfoldable pub create_send_tx :
      List Keypair → UtxoSet → Hash256 → ℕ → ℕ → ℕ → Result SendError Transaction
  unfolding or_short
  create_send_tx keypairs set recipient_hash amount fee current_height = do
    selected ← or_short (select_utxos ext signer keypairs set amount fee current_height)
    let change = total_input selected -u64 amount -u64 fee
    change_output ← change_outputs keypairs change
    sign_inputs keypairs
        (record {
          version = 1;
          inputs = map unsigned_input selected;
          outputs = output_to recipient_hash amount ∷ change_output;
          lock_time = 0;
        })
        [] selected
