-- ===== src/Chain/Connect/Undo.antt =====
-- Disconnecting a block undoes what connecting it did to the UTXO set.
use equiforge.Prelude.{ℕ, ◌≡◌, false, List, [], ◌∷◌, All, Bool-cases, inl, inr}
use equiforge.Prelude.Maps.{get}
use equiforge.Types.{OutPoint, Transaction, Block, outpoint_instance}
use equiforge.Types.Externals.{Externals}
use equiforge.Types.Coinbase.{is_coinbase}
use equiforge.Crypto.Hashes.{txid_v1}
use equiforge.Chain.Utxo.{UtxoSet}
use equiforge.Chain.Connect.{
  Progress, no_undo, connect_tx, connect_txs, connect_block_utxos, disconnect_block_utxos,
}
use equiforge.Chain.Connect.Tracks.{
  Absent, Tracks, Spendable, Tracks-no_undo, Tracks-spend_inputs, Tracks-create_outputs,
  disconnect-Tracks,
}

module _ (ext : Externals) where
  -- What a transaction needs for its connection to be undone: its inputs are there, unless it is a
  -- coinbase, and no output of its id is.
  pub record Connectable (before : UtxoSet) (tx : Transaction) : Type 0 where
    pub inputs : is_coinbase tx ≡ false → Spendable before tx.inputs
    pub outputs : (n : ℕ) → Absent before (record { txid = txid_v1 ext tx; vout = n })

  Tracks-connect_tx :
      (before : UtxoSet) (height : ℕ) (p : Progress) (tx : Transaction)
      → Tracks before p
      → Connectable before tx
      → Tracks before (connect_tx ext height p tx)
  unfolding connect_tx
  Tracks-connect_tx before height p tx t c =
      Tracks-create_outputs before (txid_v1 ext tx) height (is_coinbase tx) _ 0 tx.outputs
        (elim (Bool-cases (is_coinbase tx)) [
          | inl coinbase ↦ rw coinbase t
          | inr plain ↦ rw plain (Tracks-spend_inputs before p tx.inputs t (c.inputs plain))
        ])
        c.outputs

  Tracks-connect_txs :
      (before : UtxoSet) (height : ℕ) (p : Progress) (txs : List Transaction)
      → Tracks before p
      → All (Connectable before) txs
      → Tracks before (connect_txs ext height p txs)
  unfolding connect_txs
  Tracks-connect_txs before height p [] t c = t
  Tracks-connect_txs before height p (tx ∷ txs) t c =
      Tracks-connect_txs before height (connect_tx ext height p tx) txs
        (Tracks-connect_tx before height p tx t c.0) c.1

  -- A block whose inputs are in the set and whose transaction ids are new to it is disconnected
  -- without a trace: every outpoint has the entry that it had before the block was connected.
  pub disconnect-connect :
      (before : UtxoSet) (block : Block) (j : OutPoint)
      → All (Connectable before) block.transactions
      → (let (set, undo) = connect_block_utxos ext before block in
          get (disconnect_block_utxos undo set) j)
        ≡ get before j
  unfolding connect_block_utxos
  disconnect-connect before block j c = disconnect-Tracks before _ j (
      Tracks-connect_txs before block.header.height (before, no_undo) block.transactions
        (Tracks-no_undo before) c)
