-- ===== src/Chain/Validate/Relock.antt =====
-- chain.rs: `validate_transaction`, when the locking scripts of the outputs are replaced.
use equiforge.Prelude.{
  ℕ, suc, ◌≡◌, refl, false, List, [], ◌∷◌, Bytes, map, some, none, is_empty, All, saturating_add,
  Option, inl, inr, Result-cases,
}
use equiforge.Prelude.Maps.{get}
use equiforge.Types.{TxInput, TxOutput, Transaction, outpoint_instance}
use equiforge.Types.Externals.{Externals}
use equiforge.Types.Coinbase.{total_output, sum_amounts}
use equiforge.Crypto.Signing.{relock, relock_output}
use equiforge.Script.Spend.{spend-relock}
use equiforge.Chain.Utxo.{UtxoEntry, UtxoSet}
use equiforge.Chain.Validate.{authorize, validate_input, validate_inputs, validate_transaction}

-- The input is unlocked by a script, and not in the legacy way.
abbrev pub HasScript : TxInput → Type 0
HasScript input = is_empty input.script_sig ≡ false

sum_amounts-relock :
    (script : TxOutput → Bytes) (os : List TxOutput)
    → sum_amounts (map (relock_output script) os) ≡ sum_amounts os
unfolding sum_amounts relock_output
sum_amounts-relock script [] = refl
sum_amounts-relock script (o ∷ os) = rw (sum_amounts-relock script os) refl

total_output-relock :
    (script : TxOutput → Bytes) (tx : Transaction)
    → total_output (relock script tx) ≡ total_output tx
unfolding total_output relock
total_output-relock script tx = sum_amounts-relock script tx.outputs

is_empty-map :
    (script : TxOutput → Bytes) (os : List TxOutput)
    → is_empty (map (relock_output script) os) ≡ is_empty os
is_empty-map script [] = refl
is_empty-map script (o ∷ os) = refl

module _ (ext : Externals) (script : TxOutput → Bytes) where
  authorize-relock :
      (tx : Transaction) (idx : ℕ) (input : TxInput) (utxo : UtxoEntry)
      → HasScript input
      → authorize ext (relock script tx) idx input utxo ≡ authorize ext tx idx input utxo
  unfolding authorize
  authorize-relock tx idx input utxo h =
      rw (h, spend-relock ext script tx idx input utxo.output) refl

  validate_input-relock :
      (set : UtxoSet) (tx : Transaction) (height idx : ℕ) (input : TxInput) (o : Option UtxoEntry)
      → HasScript input
      → validate_input ext set (relock script tx) height idx input o
        ≡ validate_input ext set tx height idx input o
  unfolding validate_input
  validate_input-relock set tx height idx input none h = refl
  validate_input-relock set tx height idx input (some utxo) h =
      rw (authorize-relock tx idx input utxo h) refl

  validate_inputs-relock :
      (set : UtxoSet) (tx : Transaction) (height idx sum : ℕ) (inputs : List TxInput)
      → All HasScript inputs
      → validate_inputs ext set (relock script tx) height idx sum inputs
        ≡ validate_inputs ext set tx height idx sum inputs
  unfolding validate_inputs
  validate_inputs-relock set tx height idx sum [] h = refl
  validate_inputs-relock set tx height idx sum (input ∷ inputs) h =
      let o = get set input.previous_output in
      rw (validate_input-relock set tx height idx input o h.0)
        (elim (Result-cases (validate_input ext set tx height idx input o)) [
          | inl (amount, valid) ↦ rw valid (
              validate_inputs-relock set tx height (suc idx) (saturating_add sum amount) inputs h.1)
          | inr (e, invalid) ↦ rw invalid refl
        ])

  -- A transaction whose inputs are all unlocked by scripts is validated with the same result,
  -- accepted or rejected, whatever locking scripts its outputs have: whoever relays it can replace
  -- them.
  pub validate_transaction-relock :
      (set : UtxoSet) (tx : Transaction) (height : ℕ)
      → All HasScript tx.inputs
      → validate_transaction ext set (relock script tx) height
        ≡ validate_transaction ext set tx height
  unfolding validate_transaction relock
  validate_transaction-relock set tx height h =
      rw
        (
          is_empty-map script tx.outputs,
          validate_inputs-relock set tx height 0 0 tx.inputs h,
          total_output-relock script tx,
        )
        refl
