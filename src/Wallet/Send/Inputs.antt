-- ===== src/Wallet/Send/Inputs.antt =====
-- wallet/mod.rs: what the parts of `create_send_tx` give: the inputs that are signed, their total,
-- and the output for the change.
use equiforge.Prelude.{
  ℕ, suc, ◌≤◌, ◌<◌, u64_mod, Result, All, ◌≡◌, refl, ap, ◌∙◌, arith, List, [], ◌∷◌, some, ok, err,
  Bool-cases, ltb, inl, inr, is_empty, false, if◌then◌else◌,
}
use equiforge.Types.{OutPoint, TxInput, TxOutput, Transaction, outpoint_instance}
use equiforge.Prelude.Maps.{get}
use equiforge.Types.Externals.{Externals}
use equiforge.Types.Coinbase.{total_output}
use equiforge.Types.Coinbase
use equiforge.Crypto.Txid.{strip}
use equiforge.Chain.Utxo.{UtxoEntry, UtxoSet}
use equiforge.Chain.Validate.{authorize, validate_transaction, is_immature}
use equiforge.Chain.Validate.Laws.{u64_max, InputsOk, input_amounts, validate_transaction_iff}
use equiforge.Chain.Validate
use equiforge.Wallet.Keys.{Signer, IsLawful, Keypair, pubkey_hash_of, keypair_for_hash}
use equiforge.Wallet.Coins.{Coin, Shortfall}
use equiforge.Wallet.Coins.Owned.{IsOwned}
use equiforge.Wallet.Coins.Laws.{sum_amounts}
use equiforge.Wallet.Send.Sign.{
  LocksToHash, AreSigned, signed_input-unlocked, keypair_for_hash_sound, authorize-signed_input,
}
use equiforge.Wallet.Send.{
  unsigned_input, signed_input, or_short, total_input, change_outputs, output_to,
}

module _ (ext : Externals) (signer : Signer) where
  module _ (set : UtxoSet) (keypairs : List Keypair) where
    -- What has been shown of a selected coin, for the height at which the wallet looked.
    abbrev pub IsSpendable : ℕ → Coin → Type 0
    IsSpendable height c = IsOwned set ext signer keypairs c × (is_immature ext c.1 height ≡ false)

    -- Signed inputs of selected coins pass the checks, and bring in what the coins hold.
    pub signed-InputsOk :
        (tx t : Transaction) (i now later : ℕ) (inputs : List TxInput) (coins : List Coin)
        → IsLawful ext signer
        → ((op : OutPoint) (e : UtxoEntry) → get set op ≡ some e → LocksToHash e.output)
        → now ≤ later
        → strip t ≡ strip tx
        → All (IsSpendable now) coins
        → AreSigned ext signer keypairs t i inputs coins
        → InputsOk ext set tx later i inputs × (input_amounts set inputs ≡ sum_amounts coins)
    unfolding input_amounts signed_input unsigned_input Validate.Laws.amount_of
    signed-InputsOk tx t i now later [] [] lawful locks h same ripe signed = (tt, refl)
    signed-InputsOk tx t i now later [] (coin ∷ coins) lawful locks h same ripe signed =
        absurd signed
    signed-InputsOk tx t i now later (input ∷ inputs) [] lawful locks h same ripe signed =
        absurd signed
    signed-InputsOk tx t i now later (input ∷ inputs) (coin ∷ coins) lawful locks h same ripe
          signed =
        let (others, sum) =
          signed-InputsOk tx t (suc i) now later inputs coins lawful locks h same ripe.1 signed.1 in
        let ((found, _), mature) = ripe.0 in
        let (kp, owner, is_signed) = signed.0 in
        let here = is_signed ∙ signed_input-unlocked ext signer t tx i kp coin same in
        let authorized =
          authorize-signed_input ext signer tx i kp coin lawful (locks coin.0 coin.1 found)
            (keypair_for_hash_sound ext signer keypairs coin.1.output.pubkey_hash kp owner) in
        let there : get set input.previous_output ≡ some coin.1 =
          ap (λ (x : TxInput). get set x.previous_output) here ∙ found in
        let ripe_later : is_immature ext coin.1 later ≡ false = ground arith in
        rw there (((ripe_later, rw here authorized), others), omega (arith, sum))

pub or_short-ok : {A : Type 0} (r : Result Shortfall A) (a : A) → or_short r ≡ ok a → r ≡ ok a
unfolding or_short
or_short-ok (ok b) a e = cc
or_short-ok (err s) a e = absurd (cc)

pub total_input-sum :
    (coins : List Coin) → sum_amounts coins < u64_mod → total_input coins ≡ sum_amounts coins
unfolding total_input
total_input-sum [] fits = refl
total_input-sum (coin ∷ coins) fits = omega (arith, total_input-sum coins (omega arith))

module _ (ext : Externals) (signer : Signer) where
  pub change_outputs-sum :
      (keypairs : List Keypair) (change : ℕ) (outputs : List TxOutput)
      → change < u64_mod
      → change_outputs ext signer keypairs change ≡ ok outputs
      → Coinbase.sum_amounts outputs ≡ change
  unfolding change_outputs output_to Coinbase.sum_amounts
  change_outputs-sum [] change outputs fits e = ground arith
  change_outputs-sum (kp ∷ keypairs) change outputs fits e = elim (Bool-cases (ltb 0 change)) [
    | inl some_change ↦
        let made : outputs ≡ output_to (pubkey_hash_of ext signer kp) change ∷ [] = ground arith in
        rw made (omega arith)
    | inr no_change ↦ let made : outputs ≡ [] = ground arith in rw made (ground arith)
  ]

  pub change_outputs_total :
      (keypairs : List Keypair) (change : ℕ)
      → is_empty keypairs ≡ false
      → (outputs : List TxOutput) × (change_outputs ext signer keypairs change ≡ ok outputs)
  unfolding change_outputs
  change_outputs_total [] change h = absurd (cc)
  change_outputs_total (kp ∷ keypairs) change h =
      (if ltb 0 change then output_to (pubkey_hash_of ext signer kp) change ∷ [] else [], refl)

  pub IsOwned-All :
      (keypairs : List Keypair) (set : UtxoSet) (now : ℕ) (selected : List Coin)
      → All (IsSpendable ext signer set keypairs now) selected
      → All (IsOwned set ext signer keypairs) selected
  IsOwned-All keypairs set now [] h = tt
  IsOwned-All keypairs set now (coin ∷ selected) h =
      (h.0.0, IsOwned-All keypairs set now selected h.1)

  pub owned_keypair :
      (keypairs : List Keypair) (set : UtxoSet) (selected : List Coin)
      → All (IsOwned set ext signer keypairs) selected
      → is_empty selected ≡ false
      → is_empty keypairs ≡ false
  unfolding keypair_for_hash
  owned_keypair keypairs set [] h some_coin = absurd (cc)
  owned_keypair [] set (coin ∷ selected) h some_coin =
      let (_, (kp, found)) = h.0 in absurd (cc found)
  owned_keypair (kp ∷ keypairs) set (coin ∷ selected) h some_coin = refl
