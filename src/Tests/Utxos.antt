-- ===== src/Tests/Utxos.antt =====
-- A wallet of one output, a payment that spends it, and the block that carries the payment.
use equiforge.Prelude.{
  ℕ, ◌+◌, ◌≤◌, ◌≡◌, ◌≢◌, ◌↔◌, refl, arith, false, List, [], ◌∷◌, ◌++◌, some, none, ok, Bytes,
  replicate, is_empty, min, All, bytes_eq, le_bytes,
}
use equiforge.Prelude.Maps.{get}
use equiforge.Params.Rewards.{min_tx_fee, block_reward, community_fund_amount}
use equiforge.Types.{
  null_hash, OutPoint, Transaction, TxInput, TxOutput, Block, outpoint_instance, outpoint_eq,
}
use equiforge.Types.Coinbase.{new_coinbase, total_output, is_coinbase-new_coinbase}
use equiforge.Crypto.Hashes.{tx_signing_hash_v1, txid_v1, pubkey_bytes_to_hash, verify_signature}
use equiforge.Script.Spend.{validate_p2pkh_spend}
use equiforge.Types.Externals.{double_sha256}
use equiforge.Script.Encoding.{script_sig_p2pkh, parse_script_pubkey_p2pkh, parse_script_sig_p2pkh}
use equiforge.Chain.Utxo.{UtxoEntry, UtxoSet}
use equiforge.Chain.Validate.{authorize, validate_transaction, calculate_block_fees}
use equiforge.Crypto.Signing.{relock}
use equiforge.Script.Encoding.{script_p2pkh}
use equiforge.Types.{TxOutput}
use equiforge.Prelude.{◌∙◌, Bytes}
use equiforge.Chain.Validate.Relock.{HasScript, validate_transaction-relock}
use equiforge.Chain.Validate.Laws.{
  InputsOk, InputOk, input_amounts, u64_max, validate_transaction_iff, duplicate_input_counts_twice,
}
use equiforge.Chain.Connect.{connect_block_utxos, disconnect_block_utxos}
use equiforge.Chain.BlockRules.{validate_block_transactions}
use equiforge.Chain.BlockRules.Laws.{valid_block_undone, IsFresh}
use equiforge.Tests.Toy.{toy}

abbrev pub key : Bytes
key = replicate 32 4

abbrev pub owned : TxOutput
owned = record { amount = 5000; pubkey_hash = replicate 31 0 ++ 128 ∷ []; script_pubkey = [] }

abbrev pub owned_at : OutPoint
owned_at = record { txid = replicate 32 5; vout = 1 }

abbrev pub entry : UtxoEntry
entry = record { output = owned; height = 1; is_coinbase = false }

abbrev pub wallet : UtxoSet
wallet = (owned_at, entry) ∷ []

abbrev unlocked_by : Bytes → TxInput
unlocked_by script_sig = record {
  previous_output = owned_at;
  signature = [];
  pubkey = [];
  script_sig = script_sig;
  sequence = 0;
}

abbrev paid_to : ℕ → TxOutput
paid_to amount = record { amount = amount; pubkey_hash = replicate 32 8; script_pubkey = [] }

abbrev paying : List TxInput → ℕ → Transaction
paying inputs amount = record {
  version = 1;
  inputs = inputs;
  outputs = paid_to amount ∷ [];
  lock_time = 0;
}

-- The input, signed at a place of the transaction.
abbrev signed_at : ℕ → Transaction → TxInput
signed_at idx tx =
    unlocked_by (script_sig_p2pkh (tx_signing_hash_v1 toy tx idx owned ++ replicate 32 0) key)

abbrev pub payment : Transaction
payment = paying (signed_at 0 (paying (unlocked_by [] ∷ []) 3000) ∷ []) 3000

pub payment_valid : validate_transaction toy wallet payment 7 ≡ ok tt
unfolding validate_transaction authorize tx_signing_hash_v1 script_sig_p2pkh get outpoint_eq
    bytes_eq validate_p2pkh_spend parse_script_pubkey_p2pkh parse_script_sig_p2pkh double_sha256
    pubkey_bytes_to_hash verify_signature le_bytes total_output
payment_valid = refl

has_script : All HasScript payment.inputs
unfolding script_sig_p2pkh
has_script = (refl, tt)

abbrev stolen : TxOutput → Bytes
stolen o = script_p2pkh (replicate 32 4)

validate_transaction-relock_example :
    validate_transaction toy wallet (relock stolen payment) 7
    ≡ validate_transaction toy wallet payment 7
validate_transaction-relock_example =
    validate_transaction-relock toy stolen wallet payment 7 has_script

-- The payment stays valid when its outputs are locked to another key.
still_valid : validate_transaction toy wallet (relock stolen payment) 7 ≡ ok tt
still_valid = validate_transaction-relock toy stolen wallet payment 7 has_script ∙ payment_valid

-- The checksum of the signed string is the same for both places.
abbrev doubled : Transaction
doubled =
    let one = signed_at 0 (paying (unlocked_by [] ∷ unlocked_by [] ∷ []) 8000) in
    paying (one ∷ one ∷ []) 8000

payment_acceptable :
    (is_empty payment.inputs ≡ false)
    × (is_empty payment.outputs ≡ false)
    × InputsOk toy wallet payment 7 0 payment.inputs
    × (total_output payment + min_tx_fee ≤ min (input_amounts wallet payment.inputs) u64_max)
payment_acceptable = (validate_transaction_iff toy wallet payment 7).0 payment_valid

validate_transaction_iff_example : (validate_transaction toy wallet payment 7 ≡ ok tt) ↔ (
    (is_empty payment.inputs ≡ false)
    × (is_empty payment.outputs ≡ false)
    × InputsOk toy wallet payment 7 0 payment.inputs
    × (total_output payment + min_tx_fee ≤ min (input_amounts wallet payment.inputs) u64_max))
validate_transaction_iff_example = validate_transaction_iff toy wallet payment 7

-- The second input of the doubled payment is the first.
abbrev doubled_input : TxInput
doubled_input = signed_at 0 (paying (unlocked_by [] ∷ unlocked_by [] ∷ []) 8000)

doubled_first : InputOk toy wallet doubled 7 0 doubled_input (some entry)
unfolding authorize tx_signing_hash_v1 script_sig_p2pkh validate_p2pkh_spend
    parse_script_pubkey_p2pkh parse_script_sig_p2pkh double_sha256 bytes_eq pubkey_bytes_to_hash
    verify_signature le_bytes
doubled_first = (refl, refl)

doubled_second : InputOk toy wallet doubled 7 1 doubled_input (some entry)
unfolding authorize tx_signing_hash_v1 script_sig_p2pkh validate_p2pkh_spend
    parse_script_pubkey_p2pkh parse_script_sig_p2pkh double_sha256 bytes_eq pubkey_bytes_to_hash
    verify_signature le_bytes
doubled_second = (refl, refl)

doubled_fee : total_output doubled + min_tx_fee ≤ min 10000 u64_max
unfolding total_output
doubled_fee = omega arith

doubled_found : get wallet owned_at ≡ some entry
unfolding get outpoint_eq bytes_eq
doubled_found = refl

duplicate_input_counts_twice_example : validate_transaction toy wallet doubled 7 ≡ ok tt
duplicate_input_counts_twice_example =
    duplicate_input_counts_twice toy wallet doubled 7 doubled_input entry refl refl doubled_found
      doubled_first doubled_second doubled_fee

abbrev coinbase : Transaction
coinbase = new_coinbase 7 5000000000 (replicate 32 1) (replicate 32 2) []

abbrev pub carrier : Block
carrier = record {
  header = record {
    version = 3;
    prev_hash = null_hash;
    merkle_root = null_hash;
    timestamp = 0;
    difficulty_target = 8;
    nonce = 0;
    height = 7;
  };
  transactions = coinbase ∷ payment ∷ [];
}

fresh : All (IsFresh toy wallet) (coinbase ∷ payment ∷ [])
unfolding txid_v1 get outpoint_eq bytes_eq double_sha256
fresh = (λ n. refl, (λ n. refl, tt))

carrier_valid : validate_block_transactions toy wallet carrier ≡ ok tt
unfolding validate_block_transactions validate_transaction authorize tx_signing_hash_v1
    script_sig_p2pkh new_coinbase calculate_block_fees block_reward community_fund_amount get
    outpoint_eq bytes_eq validate_p2pkh_spend parse_script_pubkey_p2pkh parse_script_sig_p2pkh
    double_sha256 pubkey_bytes_to_hash verify_signature le_bytes total_output
carrier_valid = refl

valid_block_undone_example :
    (let (connected, undo) = connect_block_utxos toy wallet carrier in
      get (disconnect_block_utxos undo connected) owned_at)
    ≡ get wallet owned_at
valid_block_undone_example =
    valid_block_undone toy wallet carrier coinbase (payment ∷ []) owned_at refl
      (is_coinbase-new_coinbase 7 5000000000 (replicate 32 1) (replicate 32 2) []) fresh
      carrier_valid

present : All (λ (i : TxInput). get wallet i.previous_output ≢ none) payment.inputs
present = (λ e. let found = doubled_found in cc, tt)
