-- ===== src/Types/Coinbase.antt =====
-- core/types.rs: `Transaction::new_coinbase`, `is_coinbase`, `coinbase_tag` and `total_output`.
use equiforge.Prelude.{
  ℕ, ◌-◌, ◌<◌, ◌≡◌, refl, arith, Bool, true, false, not, ◌&&◌, ◌||◌, List, [], ◌∷◌, ◌++◌, Bytes,
  nat_eq, bytes_eq, leb, ltb, if◌then◌else◌, length, take, drop, u64_mod, u64_le, ◌+u64◌, is_empty,
  min, length-le_bytes, drop-append_at, length-append,
}
use equiforge.Params.Rewards.{community_fund_amount, community_fund_amount-le}
use equiforge.Types.Data.{Hash256, null_hash, TxInput, TxOutput, Transaction}

-- The `miner_tag` is given by its bytes.
unfoldable pub new_coinbase : ℕ → ℕ → Hash256 → Hash256 → Bytes → Transaction
new_coinbase height reward miner_pubkey_hash community_fund_hash miner_tag =
    let community_amount = community_fund_amount reward in
    let miner_amount = reward - community_amount in
    let sig = u64_le height ++ take (min (length miner_tag) 32) miner_tag in
    let miner_output : TxOutput = record {
      amount = miner_amount;
      pubkey_hash = miner_pubkey_hash;
      script_pubkey = [];
    } in
    let community_output : TxOutput = record {
      amount = community_amount;
      pubkey_hash = community_fund_hash;
      script_pubkey = [];
    } in
    record {
      version = 1;
      inputs =
          record {
            previous_output = record { txid = null_hash; vout = 0xFFFFFFFF };
            signature = sig;
            pubkey = [];
            script_sig = [];
            sequence = 0xFFFFFFFF;
          }
          ∷ [];
      outputs = miner_output ∷ (if ltb 0 community_amount then community_output ∷ [] else []);
      lock_time = 0;
    }

-- `&self.inputs[0]`, for a list that is tested to have one item.
coinbase_input : List TxInput → Bool
coinbase_input [] = false
coinbase_input (input ∷ _) =
    bytes_eq input.previous_output.txid null_hash && nat_eq input.previous_output.vout 0xFFFFFFFF

unfoldable pub is_coinbase : Transaction → Bool
unfolding coinbase_input
is_coinbase tx = nat_eq (length tx.inputs) 1 && coinbase_input tx.inputs

tag_of : List TxInput → Bytes
tag_of [] = []
tag_of (input ∷ _) = if leb (length input.signature) 8 then [] else drop 8 input.signature

-- The bytes of the tag; `String::from_utf8_lossy` is applied to them.
unfoldable pub coinbase_tag : Transaction → Bytes
unfolding tag_of is_coinbase
coinbase_tag tx = if not (is_coinbase tx) || is_empty tx.inputs then [] else tag_of tx.inputs

-- `.sum()` on `u64`, which wraps.
unfoldable pub sum_amounts : List TxOutput → ℕ
sum_amounts [] = 0
sum_amounts (o ∷ os) = o.amount +u64 sum_amounts os

unfoldable pub total_output : Transaction → ℕ
unfolding sum_amounts
total_output tx = sum_amounts tx.outputs

-- A coinbase transaction is recognised as one.
pub is_coinbase-new_coinbase :
    (height reward : ℕ) (miner fund : Hash256) (tag : Bytes)
    → is_coinbase (new_coinbase height reward miner fund tag) ≡ true
unfolding is_coinbase new_coinbase bytes_eq
is_coinbase-new_coinbase height reward miner fund tag = refl

-- A coinbase transaction pays out exactly the reward that it is built for, fund included.
pub total_output-new_coinbase :
    (height reward : ℕ) (miner fund : Hash256) (tag : Bytes)
    → reward < u64_mod
    → total_output (new_coinbase height reward miner fund tag) ≡ reward
unfolding total_output new_coinbase
total_output-new_coinbase height reward miner fund tag h =
    ground (arith, community_fund_amount-le reward)

-- The signature of a coinbase is the height on 8 bytes, and behind it the tag.
read_tag :
    (height : ℕ) (t : Bytes)
    → (if leb (length (u64_le height ++ t)) 8 then [] else drop 8 (u64_le height ++ t)) ≡ t
read_tag height [] = ground (arith, length-append (u64_le height) [], length-le_bytes 8 height)
read_tag height (x ∷ t) = ground (
  arith,
  length-append (u64_le height) (x ∷ t),
  length-le_bytes 8 height,
  drop-append_at 8 (u64_le height) (x ∷ t) (length-le_bytes 8 height),
)

-- The tag that is read back is the first 32 bytes of the tag that the miner gave.
pub coinbase_tag-new_coinbase :
    (height reward : ℕ) (miner fund : Hash256) (tag : Bytes)
    → coinbase_tag (new_coinbase height reward miner fund tag) ≡ take (min (length tag) 32) tag
unfolding coinbase_tag new_coinbase bytes_eq
coinbase_tag-new_coinbase height reward miner fund tag =
    read_tag height (take (min (length tag) 32) tag)
