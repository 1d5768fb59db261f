-- ===== src/Chain/Validate/Laws.antt =====
-- What a transaction has shown once `validate_transaction` accepts it.
use equiforge.Prelude.{
  ℕ, suc, ◌+◌, ◌≤◌, ◌≡◌, refl, arith, false, List, [], ◌∷◌, Option, none, some, is_empty,
  saturating_add, ok, >>=-eq-ok, Result-cases, ap, ◌↔◌, ◌∙◌, inl, inr, min,
}
use equiforge.Prelude.Maps.{get}
use equiforge.Params.Rewards.{min_tx_fee}
use equiforge.Types.{TxInput, Transaction, outpoint_instance}
use equiforge.Types.Externals.{Externals}
use equiforge.Types.Coinbase.{total_output}
use equiforge.Chain.Utxo.{UtxoEntry, UtxoSet}
use equiforge.Chain.Validate.{
  authorize, validate_input, validate_inputs, validate_transaction, is_immature,
}

unfoldable pub amount_of : Option UtxoEntry → ℕ
amount_of none = 0
amount_of (some utxo) = utxo.output.amount

-- The amounts that the inputs refer to, each as often as it is referred to, with no bound.
unfoldable pub input_amounts : UtxoSet → List TxInput → ℕ
input_amounts set [] = 0
input_amounts set (input ∷ inputs) =
    amount_of (get set input.previous_output) + input_amounts set inputs

abbrev pub u64_max : ℕ
u64_max = 18446744073709551615

module _ (ext : Externals) (set : UtxoSet) (tx : Transaction) (height : ℕ) where
  -- One input, at its index, with the output that it refers to: that is there and ripe, and the
  -- input is authorised to spend it.
  abbrev pub InputOk : ℕ → TxInput → Option UtxoEntry → Type 0
  InputOk idx input none = ⊥
  InputOk idx input (some utxo) =
      (is_immature ext utxo height ≡ false) × (authorize ext tx idx input utxo ≡ ok tt)

  -- All inputs, from an index on.
  abbrev pub InputsOk : ℕ → List TxInput → Type 0
  InputsOk idx [] = Unit
  InputsOk idx (input ∷ inputs) =
      InputOk idx input (get set input.previous_output) × InputsOk (suc idx) inputs

  validate_input_sound :
      (idx : ℕ) (input : TxInput) (o : Option UtxoEntry) (amount : ℕ)
      → validate_input ext set tx height idx input o ≡ ok amount
      → InputOk idx input o × (amount ≡ amount_of o)
  unfolding validate_input amount_of
  validate_input_sound idx input none amount h = cc
  validate_input_sound idx input (some utxo) amount h = ground arith

  validate_input_complete :
      (idx : ℕ) (input : TxInput) (o : Option UtxoEntry)
      → InputOk idx input o
      → validate_input ext set tx height idx input o ≡ ok (amount_of o)
  unfolding validate_input amount_of
  validate_input_complete idx input none h = absurd h
  validate_input_complete idx input (some utxo) h = ground arith

  validate_inputs_sound :
      (idx sum : ℕ) (inputs : List TxInput) (total : ℕ)
      → sum ≤ u64_max
      → validate_inputs ext set tx height idx sum inputs ≡ ok total
      → InputsOk idx inputs × (total ≡ min (sum + input_amounts set inputs) u64_max)
  unfolding validate_inputs input_amounts
  validate_inputs_sound idx sum [] total fits h = (tt, ground arith)
  validate_inputs_sound idx sum (input ∷ inputs) total fits h =
      let o = get set input.previous_output in
      let (amount, first, others) = >>=-eq-ok (validate_input ext set tx height idx input o) _ h in
      let (input_ok, same) = validate_input_sound idx input o amount first in
      let (inputs_ok, found) =
        validate_inputs_sound (suc idx) (saturating_add sum amount) inputs total (omega arith)
          others in
      ((input_ok, inputs_ok), omega arith)

  validate_inputs_complete :
      (idx sum : ℕ) (inputs : List TxInput)
      → sum ≤ u64_max
      → InputsOk idx inputs
      → validate_inputs ext set tx height idx sum inputs
        ≡ ok (min (sum + input_amounts set inputs) u64_max)
  unfolding validate_inputs input_amounts
  validate_inputs_complete idx sum [] fits h = ap ok (omega arith)
  validate_inputs_complete idx sum (input ∷ inputs) fits h =
      let o = get set input.previous_output in
      rw (validate_input_complete idx input o h.0) (
        validate_inputs_complete (suc idx) (saturating_add sum (amount_of o)) inputs (omega arith)
          h.1
        ∙ ap ok (omega arith))

  -- What is demanded of an accepted transaction.
  abbrev pub IsAcceptable : Type 0
  IsAcceptable =
      (is_empty tx.inputs ≡ false)
      × (is_empty tx.outputs ≡ false)
      × InputsOk 0 tx.inputs
      × (total_output tx + min_tx_fee ≤ min (input_amounts set tx.inputs) u64_max)

  validate_transaction_sound : validate_transaction ext set tx height ≡ ok tt → IsAcceptable
  unfolding validate_transaction
  validate_transaction_sound h =
      elim (Result-cases (validate_inputs ext set tx height 0 0 tx.inputs)) [
        | inl (total, e) ↦
            let (inputs_ok, same) = validate_inputs_sound 0 0 tx.inputs total (omega arith) e in
            (ground arith, ground arith, inputs_ok, ground arith)
        | inr (x, e) ↦ absurd (ground arith)
      ]

  validate_transaction_complete : IsAcceptable → validate_transaction ext set tx height ≡ ok tt
  unfolding validate_transaction
  validate_transaction_complete (ins, outs, inputs_ok, fee) =
      let total = validate_inputs_complete 0 0 tx.inputs (omega arith) inputs_ok in
      rw (ins, outs, total) (ground arith)

  -- A transaction is accepted exactly when it has inputs and outputs, every input refers to a ripe
  -- output that it is authorised to spend, and the outputs, summed with wrap-around, leave the
  -- minimum fee of the inputs, summed with saturation and as often as they are listed.
  pub validate_transaction_iff : (validate_transaction ext set tx height ≡ ok tt) ↔ (
      (is_empty tx.inputs ≡ false)
      × (is_empty tx.outputs ≡ false)
      × InputsOk 0 tx.inputs
      × (total_output tx + min_tx_fee ≤ min (input_amounts set tx.inputs) u64_max))
  validate_transaction_iff = (validate_transaction_sound, validate_transaction_complete)

  -- An input and itself again, as all inputs.
  twice_ok :
      (inputs : List TxInput) (input : TxInput) (utxo : UtxoEntry)
      → inputs ≡ input ∷ input ∷ []
      → get set input.previous_output ≡ some utxo
      → InputOk 0 input (some utxo)
      → InputOk 1 input (some utxo)
      → (is_empty inputs ≡ false)
        × InputsOk 0 inputs
        × (input_amounts set inputs ≡ utxo.output.amount + utxo.output.amount)
  unfolding input_amounts amount_of
  twice_ok inputs input utxo twice found first second =
      rw (twice, found) (refl, (first, (second, tt)), omega arith)

  -- A transaction that lists one input twice is accepted for twice the amount of the one output
  -- that it spends, where the input is authorised at both places.
  pub duplicate_input_counts_twice :
      (input : TxInput) (utxo : UtxoEntry)
      → tx.inputs ≡ input ∷ input ∷ []
      → is_empty tx.outputs ≡ false
      → get set input.previous_output ≡ some utxo
      → InputOk 0 input (some utxo)
      → InputOk 1 input (some utxo)
      → total_output tx + min_tx_fee ≤ min (utxo.output.amount + utxo.output.amount) u64_max
      → validate_transaction ext set tx height ≡ ok tt
  duplicate_input_counts_twice input utxo twice outs found first second fee =
      let (ins, inputs_ok, sum) = twice_ok tx.inputs input utxo twice found first second in
      validate_transaction_complete (ins, outs, inputs_ok, rw sum fee)
