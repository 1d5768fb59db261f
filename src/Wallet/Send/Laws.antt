-- ===== src/Wallet/Send/Laws.antt =====
-- A transaction that `create_send_tx` makes passes `validate_transaction`.
use equiforge.Prelude.{
  ℕ, ◌≤◌, ◌<◌, ◌+◌, ◌-◌, ◌-u64◌, u64_mod, All, ◌≡◌, refl, ap, sym, arith, List, [], ◌∷◌, map, some,
  ok, >>=-eq-ok, inl, inr, Result-cases, is_empty, false,
}
use equiforge.Types.{Hash256, OutPoint, TxInput, TxOutput, Transaction, outpoint_instance}
use equiforge.Prelude.Maps.{get, HasOnce}
use equiforge.Params.Rewards.{min_tx_fee}
use equiforge.Types.Externals.{Externals}
use equiforge.Types.Coinbase.{total_output}
use equiforge.Types.Coinbase
use equiforge.Crypto.Txid.{strip_inputs}
use equiforge.Chain.Utxo.{UtxoEntry, UtxoSet}
use equiforge.Chain.Validate.{validate_transaction}
use equiforge.Chain.Validate.Laws.{validate_transaction_iff}
use equiforge.Wallet.Keys.{Signer, IsLawful, Keypair}
use equiforge.Wallet.Coins.{Coin, select_utxos}
use equiforge.Wallet.Coins.Laws.{
  sum_amounts, holdings, ripe_holdings, select_utxos_sound, select_utxos_enough,
}
use equiforge.Wallet.Send.Sign.{
  LocksToHash, AreSigned, AreSigned-nonempty, sign_inputs_total, sign_inputs_sound,
}
use equiforge.Wallet.Send.{
  unsigned_input, or_short, total_input, change_outputs, output_to, create_send_tx,
}
use equiforge.Wallet.Send.Inputs.{
  IsSpendable, signed-InputsOk, total_input-sum, change_outputs-sum, change_outputs_total,
  IsOwned-All, owned_keypair, or_short-ok,
}

module _ (ext : Externals) (signer : Signer) where
  module _ (keypairs : List Keypair) (set : UtxoSet) (recipient : Hash256) (amount fee : ℕ) where
    -- The transaction, for its inputs and the output for the change.
    abbrev pub sending : List TxInput → List TxOutput → Transaction
    sending inputs change_output = record {
      version = 1;
      inputs = inputs;
      outputs = output_to recipient amount ∷ change_output;
      lock_time = 0;
    }

    -- What has been made of the selected coins when a transaction is returned.
    abbrev pub IsSent : ℕ → Transaction → List Coin → List TxOutput → List TxInput → Type 0
    IsSent now tx selected change_output new =
        (select_utxos ext signer keypairs set amount fee now ≡ ok selected)
        × (change_outputs ext signer keypairs (total_input selected -u64 amount -u64 fee)
            ≡ ok change_output)
        × (tx ≡ sending new change_output)
        × (strip_inputs new ≡ strip_inputs (map unsigned_input selected))
        × AreSigned ext signer keypairs (sending (map unsigned_input selected) change_output) 0 new
            selected

    -- The transaction passes, whatever is selected, if it is ripe, owned and enough.
    sent_valid :
        (selected : List Coin) (change_output : List TxOutput) (new : List TxInput) (now later : ℕ)
        → IsLawful ext signer
        → ((op : OutPoint) (e : UtxoEntry) → get set op ≡ some e → LocksToHash e.output)
        → All (IsSpendable ext signer set keypairs now) selected
        → amount + fee ≤ sum_amounts selected
        → sum_amounts selected < u64_mod
        → is_empty selected ≡ false
        → now ≤ later
        → min_tx_fee ≤ fee
        → change_outputs ext signer keypairs (total_input selected -u64 amount -u64 fee)
          ≡ ok change_output
        → strip_inputs new ≡ strip_inputs (map unsigned_input selected)
        → AreSigned ext signer keypairs
            (sending (map unsigned_input selected) change_output)
            0
            new
            selected
        → validate_transaction ext set (sending new change_output) later ≡ ok tt
    unfolding total_output output_to Coinbase.sum_amounts
    sent_valid selected change_output new now later lawful locks ripe enough below some_coin h
          fee_fits change same signed =
        let tx = sending new change_output in
        let base = sending (map unsigned_input selected) change_output in
        let (inputs_ok, sum) =
          signed-InputsOk ext signer set keypairs tx base 0 now later new selected lawful locks h
            (ap (λ is. sending is change_output) (sym same)) ripe signed in
        let total = total_input-sum selected below in
        let left : total_input selected -u64 amount -u64 fee ≡ sum_amounts selected - amount - fee =
          rw total (omega arith) in
        let outs =
          change_outputs-sum ext signer keypairs (total_input selected -u64 amount -u64 fee)
            change_output (omega arith) change in
        (validate_transaction_iff ext set tx later).1 (
          AreSigned-nonempty ext signer keypairs base 0 new selected signed some_coin,
          refl,
          inputs_ok,
          omega (arith, sum, outs, left),
        )

    create_send_tx-IsSent :
        (now : ℕ) (tx : Transaction)
        → create_send_tx ext signer keypairs set recipient amount fee now ≡ ok tx
        → (selected : List Coin) × (change_output : List TxOutput) × (new : List TxInput) × IsSent
            now tx selected change_output new
    unfolding create_send_tx
    create_send_tx-IsSent now tx e =
        let select = select_utxos ext signer keypairs set amount fee now in
        let (selected, first, e₁) = >>=-eq-ok (or_short select) _ e in
        let change = total_input selected -u64 amount -u64 fee in
        let (change_output, second, e₂) =
          >>=-eq-ok (change_outputs ext signer keypairs change) _ e₁ in
        let inputs = map unsigned_input selected in
        let (new, made, same, signed) =
          sign_inputs_sound ext signer keypairs (sending inputs change_output) inputs [] selected tx
            refl e₂ in
        (
          selected,
          change_output,
          new,
          (or_short-ok select selected first, second, made, same, signed),
        )

    -- A transaction that the wallet makes passes the validation of the chain, now and at any later
    -- height, if the signatures are lawful, the UTXO set has every outpoint once and no standard
    -- script for another hash than its output names, the outputs that the wallet owns are together
    -- below 2^64, as are the amount and the fee, and the fee is at least the minimum.
    pub create_send_tx-valid :
        (now later : ℕ) (tx : Transaction)
        → IsLawful ext signer
        → HasOnce set
        → ((op : OutPoint) (e : UtxoEntry) → get set op ≡ some e → LocksToHash e.output)
        → holdings ext signer keypairs set < u64_mod
        → amount + fee < u64_mod
        → min_tx_fee ≤ fee
        → now ≤ later
        → create_send_tx ext signer keypairs set recipient amount fee now ≡ ok tx
        → validate_transaction ext set tx later ≡ ok tt
    create_send_tx-valid now later tx lawful once locks fits sum_fits fee_fits h e =
        let (selected, change_output, new, (select, change, made, same, signed)) =
          create_send_tx-IsSent now tx e in
        let (ripe, enough, below, some_coin) =
          select_utxos_sound ext signer keypairs set amount fee now selected once fits select in
        rw made (
          sent_valid selected change_output new now later lawful locks ripe
            (omega (arith, enough, sum_fits)) below some_coin h fee_fits change same signed)

    create_send_tx_total :
        (now : ℕ)
        → IsLawful ext signer
        → HasOnce set
        → holdings ext signer keypairs set < u64_mod
        → amount + fee < u64_mod
        → 0 < amount + fee
        → amount + fee ≤ ripe_holdings ext signer keypairs set now
        → (tx : Transaction) × (create_send_tx ext signer keypairs set recipient amount fee now
            ≡ ok tx)
    unfolding create_send_tx or_short
    create_send_tx_total now lawful once fits sum_fits positive enough =
        let select = select_utxos ext signer keypairs set amount fee now in
        let selects =
          select_utxos_enough ext signer keypairs set amount fee now fits (omega arith)
            (omega arith) in
        elim (Result-cases select) [
          | inr (e, failed) ↦ absurd (ground arith)
          | inl (selected, select_ok) ↦
              let (ripe, _, below, some_coin) =
                select_utxos_sound ext signer keypairs set amount fee now selected once fits
                  select_ok in
              let owned = IsOwned-All ext signer keypairs set now selected ripe in
              let (change_output, change) =
                change_outputs_total ext signer keypairs (total_input selected -u64 amount -u64 fee)
                  (owned_keypair ext signer keypairs set selected owned some_coin) in
              let (tx, signed) =
                sign_inputs_total ext signer set keypairs
                  (sending (map unsigned_input selected) change_output) [] selected lawful owned in
              (tx, rw (select_ok, change) signed)
        ]

    -- Whenever the ripe outputs of the wallet come to the amount and the fee, which is at least the
    -- minimum, the wallet makes a transaction, and the chain's validation accepts it, now and at
    -- any later height, if the signatures are lawful, the UTXO set has every outpoint once and no
    -- standard script for another hash than its output names, and the outputs that the wallet owns
    -- are together below 2^64, as are the amount and the fee.
    pub create_send_tx_passes :
        (now later : ℕ)
        → IsLawful ext signer
        → HasOnce set
        → ((op : OutPoint) (e : UtxoEntry) → get set op ≡ some e → LocksToHash e.output)
        → holdings ext signer keypairs set < u64_mod
        → amount + fee < u64_mod
        → min_tx_fee ≤ fee
        → amount + fee ≤ ripe_holdings ext signer keypairs set now
        → now ≤ later
        → (tx : Transaction) × (create_send_tx ext signer keypairs set recipient amount fee now
            ≡ ok tx)
          × (validate_transaction ext set tx later ≡ ok tt)
    create_send_tx_passes now later lawful once locks fits sum_fits fee_fits enough h =
        let (tx, made) = create_send_tx_total now lawful once fits sum_fits (omega arith) enough in
        (
          tx,
          made,
          create_send_tx-valid now later tx lawful once locks fits sum_fits fee_fits h made,
        )
