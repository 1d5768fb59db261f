-- ===== src/Chain/BlockRules/Laws.antt =====
-- What the rules on a block's transactions establish, and what they do not look at.
use equiforge.Prelude.{
  ℕ, suc, ◌≡◌, ◌≢◌, ◌↔◌, refl, arith, true, List, [], ◌∷◌, none, ok, rest, All, Result-cases, inl,
  inr,
}
use equiforge.Prelude.Maps.{get}
use equiforge.Types.{OutPoint, TxInput, Transaction, Block, outpoint_instance}
use equiforge.Types.Externals.{Externals}
use equiforge.Types.Coinbase.{is_coinbase}
use equiforge.Crypto.Hashes.{txid_v1}
use equiforge.Chain.Utxo.{UtxoSet}
use equiforge.Chain.Validate.{validate_transaction, calculate_block_fees}
use equiforge.Chain.Validate.Laws.{InputsOk, validate_transaction_iff}
use equiforge.Chain.Connect.{connect_block_utxos, disconnect_block_utxos}
use equiforge.Chain.Connect.Undo.{Connectable, disconnect-connect}
use equiforge.Chain.BlockRules.{validate_all, validate_block_transactions}

module _ (ext : Externals) where
  -- The transactions behind the coinbase pass exactly when each of them passes by itself: what one
  -- of them spends is still there for the next.
  pub validate_all_iff :
      (set : UtxoSet) (height : ℕ) (txs : List Transaction)
      → (validate_all ext set height txs ≡ ok tt)
        ↔ All (λ tx. validate_transaction ext set tx height ≡ ok tt) txs
  unfolding validate_all
  validate_all_iff set height [] = (λ h. tt, λ h. refl)
  validate_all_iff set height (tx ∷ txs) = (
    λ h. elim (Result-cases (validate_transaction ext set tx height)) [
      | inl (t, e) ↦ (e, (validate_all_iff set height txs).0 (rw e at h))
      | inr (x, e) ↦ absurd (ground arith)
    ],
    λ h. rw h.0 ((validate_all_iff set height txs).1 h.1),
  )

  InputsOk-found :
      (set : UtxoSet) (tx : Transaction) (height idx : ℕ) (inputs : List TxInput)
      → InputsOk ext set tx height idx inputs
      → All (λ i. get set i.previous_output ≢ none) inputs
  InputsOk-found set tx height idx [] h = tt
  InputsOk-found set tx height idx (input ∷ inputs) h =
      (ground (arith, h.0), InputsOk-found set tx height (suc idx) inputs h.1)

  -- No output with the transaction's id is in the set.
  abbrev pub IsFresh : UtxoSet → Transaction → Type 0
  IsFresh set tx = (n : ℕ) → get set (record { txid = txid_v1 ext tx; vout = n }) ≡ none

  transactions_valid :
      (set : UtxoSet) (block : Block)
      → validate_block_transactions ext set block ≡ ok tt
      → validate_all ext set block.header.height (rest block.transactions) ≡ ok tt
  unfolding validate_block_transactions
  transactions_valid set block h = elim (Result-cases (calculate_block_fees set block)) [
    | inl (fees, e) ↦ ground arith
    | inr (x, e) ↦ absurd (ground arith)
  ]

  valid-Connectable :
      (set : UtxoSet) (height : ℕ) (txs : List Transaction)
      → All (λ tx. validate_transaction ext set tx height ≡ ok tt) txs
      → All (IsFresh set) txs
      → All (Connectable ext set) txs
  valid-Connectable set height [] v f = tt
  valid-Connectable set height (tx ∷ txs) v f =
      let (_, _, inputs_ok, _) = (validate_transaction_iff ext set tx height).0 v.0 in
      (
        record { inputs = λ _. InputsOk-found set tx height 0 tx.inputs inputs_ok; outputs = f.0 },
        valid-Connectable set height txs v.1 f.1,
      )

  -- A block whose transactions the rules accept, behind a coinbase, is undone without a trace once
  -- it is connected, if the ids of its transactions are new to the UTXO set.
  pub valid_block_undone :
      (set : UtxoSet) (block : Block) (coinbase : Transaction) (txs : List Transaction)
      (j : OutPoint)
      → block.transactions ≡ coinbase ∷ txs
      → is_coinbase coinbase ≡ true
      → All (IsFresh set) (coinbase ∷ txs)
      → validate_block_transactions ext set block ≡ ok tt
      → (let (connected, undo) = connect_block_utxos ext set block in
          get (disconnect_block_utxos undo connected) j)
        ≡ get set j
  valid_block_undone set block coinbase txs j list first fresh valid =
      let each : All (λ tx. validate_transaction ext set tx block.header.height ≡ ok tt) txs =
        (validate_all_iff set block.header.height txs).0
          (rw list at (transactions_valid set block valid)) in
      let ready : All (Connectable ext set) (coinbase ∷ txs) = (
        record { inputs = λ plain. cc; outputs = fresh.0 },
        valid-Connectable set block.header.height txs each fresh.1,
      ) in
      disconnect-connect ext set block j (rw list ready)
