-- ===== src/Network/Mempool.antt =====
-- network/mod.rs: the mempool, keyed by transaction id and sorted by fee rate.
pub mod Laws
use equiforge.Prelude.{
  ℕ, ◌-◌, Bool, true, false, not, ◌||◌, List, [], ◌∷◌, ◌++◌, map, Option, none, some, ltb, leb,
  if◌then◌else◌, length, ◌+u64◌, Result, ok, err, bytes_instance,
}
use equiforge.Prelude.Sort.{sort_by}
use equiforge.Prelude.Maps.{Map, get, insert, remove, contains_key}
use equiforge.Types.{Hash256, OutPoint, TxInput, Transaction, Block, outpoint_eq, outpoint_instance}
use equiforge.Types.Externals.{Externals, tx_hash, tx_size}
use equiforge.Types.Coinbase.{is_coinbase, total_output}
use equiforge.Crypto.Hashes.{txid_v1}
use equiforge.Chain.Utxo.{UtxoSet}
use equiforge.Chain.Errors.{BlockError}
use equiforge.Chain.Difficulty.{Float}
use equiforge.Chain.State.{Env, Chain}
use equiforge.Chain.Headers.{validate_transaction_for_mempool}

pub record MempoolEntry (F : Type 0) : Type 0 where
  pub tx : Transaction
  pub fee : ℕ
  pub size : ℕ
  pub fee_rate : F

pub record Mempool (F : Type 0) : Type 0 where
  pub entries : Map Hash256 (MempoolEntry F)
  pub max_size : ℕ

-- The texts that `validate_and_add` answers.
pub data Refusal : Type 0 where
  duplicate mempool_full : Refusal
  invalid : BlockError → Refusal

-- The outpoints that the inputs of all the block's transactions refer to.
unfoldable pub outpoints_of : List TxInput → List OutPoint
outpoints_of [] = []
outpoints_of (input ∷ inputs) = input.previous_output ∷ outpoints_of inputs

unfoldable pub spent_outpoints : List Transaction → List OutPoint
unfolding outpoints_of
spent_outpoints [] = []
spent_outpoints (tx ∷ txs) = outpoints_of tx.inputs ++ spent_outpoints txs

abbrev pub has_outpoint : List OutPoint → OutPoint → Bool
has_outpoint [] op = false
has_outpoint (o ∷ ops) op = outpoint_eq o op || has_outpoint ops op

-- `inputs.iter().any(|i| spent_outpoints.contains(&i.previous_output))`
abbrev pub spends_any : List OutPoint → List TxInput → Bool
spends_any ops [] = false
spends_any ops (input ∷ inputs) = has_outpoint ops input.previous_output || spends_any ops inputs

-- The sum of what the inputs refer to, where it is known; on `u64`, and wraps.
unfoldable pub known_inputs : UtxoSet → ℕ → List TxInput → ℕ
known_inputs set input_sum [] = input_sum
known_inputs set input_sum (input ∷ inputs) =
    known_inputs set
      (elim (get set input.previous_output) [
        | none ↦ input_sum
        | some utxo ↦ input_sum +u64 utxo.output.amount
      ])
      inputs

-- `retain`
unfoldable pub keep_unspent :
    {F : Type 0} → List OutPoint → Map Hash256 (MempoolEntry F) → Map Hash256 (MempoolEntry F)
keep_unspent ops [] = []
keep_unspent ops ((id, entry) ∷ entries) =
    let others = keep_unspent ops entries in
    if spends_any ops entry.tx.inputs then others else (id, entry) ∷ others

abbrev pub values : {F : Type 0} → Map Hash256 (MempoolEntry F) → List (MempoolEntry F)
values [] = []
values ((_, entry) ∷ entries) = entry ∷ values entries

module _ {F S : Type 0} (env : Env F S) where
  open env use {ext, float}

  unfoldable pub fee_rate_of : ℕ → ℕ → F
  fee_rate_of fee size =
      if ltb 0 size then float.div (float.of_ℕ fee) (float.of_ℕ size) else float.of_ℕ 0

  unfoldable pub add_with_fee : Transaction → ℕ → Mempool F → Bool × Mempool F
  add_with_fee tx fee pool =
      let txid = txid_v1 ext tx in
      let size = tx_size ext tx in
      let entry : MempoolEntry F = record {
        tx = tx;
        fee = fee;
        size = size;
        fee_rate = fee_rate_of fee size;
      } in
      if contains_key pool.entries txid
      then (false, pool)
      else if leb pool.max_size (length pool.entries)
      then (false, pool)
      else (true, record pool { entries = insert txid entry pool.entries })

  -- `add`
  unfoldable pub add_without_fee : Transaction → Mempool F → Bool × Mempool F
  add_without_fee tx pool = add_with_fee tx 0 pool

  unfoldable pub fee_of : Chain F S → Transaction → ℕ
  unfolding known_inputs
  fee_of chain tx = known_inputs chain.utxo_set 0 tx.inputs - total_output tx

  unfoldable pub validate_and_add :
      Chain F S → Transaction → Mempool F → Result Refusal Hash256 × Mempool F
  validate_and_add chain tx pool =
      let txid = txid_v1 ext tx in
      let (_, pool') = add_with_fee tx (fee_of chain tx) pool in
      if contains_key pool.entries txid
      then (err duplicate, pool)
      else if leb pool.max_size (length pool.entries)
      then (err mempool_full, pool)
      else elim (validate_transaction_for_mempool env chain tx) [
        | err e ↦ (err (invalid e), pool)
        | ok _ ↦ (ok txid, pool')
      ]

  -- The first loop removes by `tx.hash()`, while the entries are keyed by `txid_v1`.
  unfoldable pub remove_hashes :
      List Transaction → Map Hash256 (MempoolEntry F) → Map Hash256 (MempoolEntry F)
  remove_hashes [] entries = entries
  remove_hashes (tx ∷ txs) entries =
      remove_hashes txs (if is_coinbase tx then entries else remove (tx_hash ext tx) entries)

  unfoldable pub remove_confirmed : Block → Mempool F → Mempool F
  unfolding remove_hashes keep_unspent
  remove_confirmed block pool = record pool {
    entries =
        keep_unspent (spent_outpoints block.transactions)
          (remove_hashes block.transactions pool.entries);
  }

  -- `b.fee_rate.partial_cmp(&a.fee_rate)`: the lower rate stands behind.
  abbrev pub rate_below : MempoolEntry F → MempoolEntry F → Bool
  rate_below a b = float.less a.fee_rate b.fee_rate

  abbrev pub tx_of_entry : MempoolEntry F → Transaction
  tx_of_entry entry = entry.tx

  unfoldable pub get_pending : Mempool F → List Transaction
  get_pending pool = map tx_of_entry (sort_by rate_below (values pool.entries))
