-- ===== src/Chain/Connect.antt =====
-- core/chain.rs: `connect_block_utxos` and `disconnect_block_utxos`.
pub mod Tracks
pub mod Undo
use equiforge.Prelude.{
  ℕ, suc, ◌%◌, Bool, List, [], ◌∷◌, ◌++◌, Option, none, some, if◌then◌else◌, u32_mod,
}
use equiforge.Types.{Hash256, OutPoint, TxInput, TxOutput, Transaction, Block}
use equiforge.Types.Externals.{Externals}
use equiforge.Types.Coinbase.{is_coinbase}
use equiforge.Crypto.Hashes.{txid_v1}
use equiforge.Chain.Utxo.{UtxoEntry, UtxoSet, BlockUndo, add, spend}

-- The set and the undo record while a block is connected.
abbrev pub Progress : Type 0
Progress = UtxoSet × BlockUndo

abbrev pub no_undo : BlockUndo
no_undo = record { spent = []; created = [] }

-- `if let Some(spent) = ... { undo.spent.push(...) }`
note_spent : OutPoint → BlockUndo → Option UtxoEntry → BlockUndo
note_spent op undo none = undo
note_spent op undo (some entry) = record undo { spent = undo.spent ++ (op, entry) ∷ [] }

unfoldable pub spend_inputs : Progress → List TxInput → Progress
unfolding note_spent spend
spend_inputs p [] = p
spend_inputs (set, undo) (input ∷ inputs) =
    let op = input.previous_output in
    let (spent, set') = spend op set in spend_inputs (set', note_spent op undo spent) inputs

-- The outputs from index `vout` on.
unfoldable pub create_outputs : Hash256 → ℕ → Bool → Progress → ℕ → List TxOutput → Progress
unfolding add
create_outputs txid height coinbase p vout [] = p
create_outputs txid height coinbase (set, undo) vout (output ∷ outputs) =
    let op : OutPoint = record { txid = txid; vout = vout % u32_mod } in
    let entry : UtxoEntry = record { output = output; height = height; is_coinbase = coinbase } in
    create_outputs txid height coinbase
      (add op entry set, record undo { created = undo.created ++ op ∷ [] }) (suc vout) outputs

module _ (ext : Externals) where
  unfoldable pub connect_tx : ℕ → Progress → Transaction → Progress
  unfolding spend_inputs create_outputs
  connect_tx height p tx =
      let spent = if is_coinbase tx then p else spend_inputs p tx.inputs in
      create_outputs (txid_v1 ext tx) height (is_coinbase tx) spent 0 tx.outputs

  unfoldable pub connect_txs : ℕ → Progress → List Transaction → Progress
  unfolding connect_tx
  connect_txs height p [] = p
  connect_txs height p (tx ∷ txs) = connect_txs height (connect_tx height p tx) txs

  unfoldable pub connect_block_utxos : UtxoSet → Block → Progress
  unfolding connect_txs
  connect_block_utxos set block = connect_txs block.header.height (set, no_undo) block.transactions

unfoldable pub remove_created : List OutPoint → UtxoSet → UtxoSet
unfolding spend
remove_created [] set = set
remove_created (op ∷ ops) set = remove_created ops (spend op set).1

unfoldable pub restore_spent : List (OutPoint × UtxoEntry) → UtxoSet → UtxoSet
unfolding add
restore_spent [] set = set
restore_spent ((op, entry) ∷ spent) set = restore_spent spent (add op entry set)

unfoldable pub disconnect_block_utxos : BlockUndo → UtxoSet → UtxoSet
unfolding remove_created restore_spent
disconnect_block_utxos undo set = restore_spent undo.spent (remove_created undo.created set)
