-- ===== src/Wallet/Send/Sign.antt =====
-- The signatures of `create_send_tx`: made one after the other, valid all together.
use equiforge.Prelude.{
  ℕ, suc, All, ◌≡◌, refl, ap, ◌∙◌, arith, List, [], ◌∷◌, ◌++◌, map, Bytes, some, append_assoc,
  length, length-append, ok, >>=-eq-ok, bytes_eq_refl, bytes_eq_iff, inl, inr, append-nil,
  Option-cases, Result-cases, is_empty, true, false,
}
use equiforge.Types.{Hash256, TxInput, TxOutput, Transaction, outpoint_instance}
use equiforge.Types.Externals.{Externals}
use equiforge.Crypto.Hashes.{tx_signing_hash_v1, verify_signature, pubkey_bytes_to_hash}
use equiforge.Crypto.Txid.{strip, strip_input, strip_inputs}
use equiforge.Crypto.Signing.{signing_hash-unlocked}
use equiforge.Script.Encoding.{parse_script_pubkey_p2pkh, parse_script_sig_p2pkh, script_sig_p2pkh}
use equiforge.Script.Encoding.Laws.{parse-script_sig_p2pkh}
use equiforge.Script.Spend.{validate_p2pkh_spend}
use equiforge.Chain.Utxo.{UtxoEntry, UtxoSet}
use equiforge.Chain.Validate.{authorize}
use equiforge.Wallet.Keys.{
  Signer, IsLawful, Keypair, public_key_bytes, pubkey_hash_of, keypair_for_hash,
}
use equiforge.Wallet.Coins.{Coin}
use equiforge.Wallet.Coins.Owned.{IsOwned}
use equiforge.Wallet.Send.{unsigned_input, signed_input, sized_input, sign_input, sign_inputs}

strip_inputs-replace :
    (is js : List TxInput) (i j : TxInput)
    → strip_input i ≡ strip_input j
    → strip_inputs ((is ++ i ∷ []) ++ js) ≡ strip_inputs (is ++ j ∷ js)
unfolding strip_inputs
strip_inputs-replace [] js i j same = ap (λ s. s ∷ strip_inputs js) same
strip_inputs-replace (k ∷ is) js i j same =
    ap (λ ss. strip_input k ∷ ss) (strip_inputs-replace is js i j same)

-- The output is locked to the hash that it names, where its script is a standard one.
abbrev pub LocksToHash : TxOutput → Type 0
LocksToHash o = (h : Hash256) → parse_script_pubkey_p2pkh o.script_pubkey ≡ ok h → h ≡ o.pubkey_hash

module _ (ext : Externals) (tx : Transaction) (i : ℕ) (input : TxInput) (sig pubkey : Bytes) where
  -- A signature and a key that fit the output, in the standard script, spend it.
  spend-script_sig :
      (prev : TxOutput)
      → parse_script_sig_p2pkh input.script_sig ≡ ok (sig, pubkey)
      → LocksToHash prev
      → pubkey_bytes_to_hash ext pubkey ≡ prev.pubkey_hash
      → verify_signature ext pubkey (tx_signing_hash_v1 ext tx i prev) sig ≡ true
      → validate_p2pkh_spend ext tx i input prev ≡ ok tt
  unfolding validate_p2pkh_spend
  spend-script_sig prev parsed locks owner verified =
      let refl_hash = bytes_eq_refl prev.pubkey_hash in
      elim (Result-cases (parse_script_pubkey_p2pkh prev.script_pubkey)) [
        | inl (h, standard) ↦
            rw (standard, parsed, locks h standard, owner, verified, refl_hash) refl
        | inr (e, other) ↦ rw (other, parsed, owner, verified, refl_hash) refl
      ]

  authorize-spend :
      (utxo : UtxoEntry)
      → is_empty input.script_sig ≡ false
      → validate_p2pkh_spend ext tx i input utxo.output ≡ ok tt
      → authorize ext tx i input utxo ≡ ok tt
  unfolding authorize
  authorize-spend utxo present spends = rw (present, spends) refl

module _ (ext : Externals) (signer : Signer) where
  pub signed_input-unlocked :
      (t u : Transaction) (i : ℕ) (kp : Keypair) (coin : Coin)
      → strip t ≡ strip u
      → signed_input ext signer t i kp coin ≡ signed_input ext signer u i kp coin
  unfolding signed_input
  signed_input-unlocked t u i kp coin same = rw (signing_hash-unlocked ext t u i coin.1.output same)

  pub keypair_for_hash_sound :
      (keypairs : List Keypair) (hash : Hash256) (kp : Keypair)
      → keypair_for_hash ext signer keypairs hash ≡ some kp
      → pubkey_hash_of ext signer kp ≡ hash
  unfolding keypair_for_hash
  keypair_for_hash_sound [] hash kp e = absurd (cc)
  keypair_for_hash_sound (k ∷ keypairs) hash kp e = ground (
    arith,
    bytes_eq_iff (pubkey_hash_of ext signer k) hash,
    keypair_for_hash_sound keypairs hash kp,
  )

  -- An input that the wallet has signed in a transaction spends its coin there.
  pub authorize-signed_input :
      (tx : Transaction) (i : ℕ) (kp : Keypair) (coin : Coin)
      → IsLawful ext signer
      → LocksToHash coin.1.output
      → pubkey_hash_of ext signer kp ≡ coin.1.output.pubkey_hash
      → authorize ext tx i (signed_input ext signer tx i kp coin) coin.1 ≡ ok tt
  unfolding signed_input public_key_bytes pubkey_hash_of verify_signature script_sig_p2pkh
  authorize-signed_input tx i kp coin lawful locks owner =
      let input = signed_input ext signer tx i kp coin in
      let hash = tx_signing_hash_v1 ext tx i coin.1.output in
      let sig = signer.sign kp.secret hash in
      let pubkey = signer.public_of kp.secret in
      let sig_size = lawful.length-sign kp.secret hash in
      let pubkey_size = lawful.length-public kp.secret in
      let verified : verify_signature ext pubkey hash sig ≡ true =
        rw (sig_size, pubkey_size) (lawful.verify-sign kp.secret hash) in
      let parsed = parse-script_sig_p2pkh sig pubkey sig_size pubkey_size in
      authorize-spend ext tx i input sig pubkey coin.1 refl
        (spend-script_sig ext tx i input sig pubkey coin.1.output parsed locks owner verified)

  -- The inputs are those of the coins, signed in the transaction from an index on.
  abbrev pub AreSigned : List Keypair → Transaction → ℕ → List TxInput → List Coin → Type 0
  AreSigned keypairs tx i [] [] = Unit
  AreSigned keypairs tx i [] (coin ∷ coins) = ⊥
  AreSigned keypairs tx i (input ∷ inputs) [] = ⊥
  AreSigned keypairs tx i (input ∷ inputs) (coin ∷ coins) =
      ((kp : Keypair) × (keypair_for_hash ext signer keypairs coin.1.output.pubkey_hash ≡ some kp)
        × (input ≡ signed_input ext signer tx i kp coin))
      × AreSigned keypairs tx (suc i) inputs coins

  pub AreSigned-nonempty :
      (keypairs : List Keypair) (tx : Transaction) (i : ℕ) (inputs : List TxInput)
      (coins : List Coin)
      → AreSigned keypairs tx i inputs coins
      → is_empty coins ≡ false
      → is_empty inputs ≡ false
  AreSigned-nonempty keypairs tx i [] [] signed h = h
  AreSigned-nonempty keypairs tx i [] (coin ∷ coins) signed h = absurd signed
  AreSigned-nonempty keypairs tx i (input ∷ inputs) coins signed h = refl

  sign_input_sound :
      (keypairs : List Keypair) (tx : Transaction) (i : ℕ) (coin : Coin) (input : TxInput)
      → sign_input ext signer keypairs tx i coin ≡ ok input
      → (kp : Keypair) × (keypair_for_hash ext signer keypairs coin.1.output.pubkey_hash ≡ some kp)
        × (input ≡ signed_input ext signer tx i kp coin)
  unfolding sign_input
  sign_input_sound keypairs tx i coin input e =
      let hash = coin.1.output.pubkey_hash in
      elim (Option-cases (keypair_for_hash ext signer keypairs hash)) [
        | inl missing ↦ absurd (ground arith)
        | inr (kp, found) ↦ (kp, found, ground arith)
      ]

  -- Every coin that a key owns is signed for.
  sign_input_total :
      (set : UtxoSet) (keypairs : List Keypair) (tx : Transaction) (i : ℕ) (coin : Coin)
      → IsLawful ext signer
      → IsOwned set ext signer keypairs coin
      → (input : TxInput) × (sign_input ext signer keypairs tx i coin ≡ ok input)
  unfolding sign_input sized_input signed_input public_key_bytes
  sign_input_total set keypairs tx i coin lawful owned =
      let (_, (kp, found)) = owned in
      let hash = tx_signing_hash_v1 ext tx i coin.1.output in
      let sig_size = lawful.length-sign kp.secret hash in
      let pubkey_size = lawful.length-public kp.secret in
      (signed_input ext signer tx i kp coin, ground arith)

  pub sign_inputs_total :
      (set : UtxoSet) (keypairs : List Keypair) (tx : Transaction) (signed : List TxInput)
      (coins : List Coin)
      → IsLawful ext signer
      → All (IsOwned set ext signer keypairs) coins
      → (made : Transaction) × (sign_inputs ext signer keypairs tx signed coins ≡ ok made)
  unfolding sign_inputs
  sign_inputs_total set keypairs tx signed [] lawful owned = (record tx { inputs = signed }, refl)
  sign_inputs_total set keypairs tx signed (coin ∷ coins) lawful owned =
      let current = record tx { inputs = signed ++ map unsigned_input (coin ∷ coins) } in
      let (input, first) =
        sign_input_total set keypairs current (length signed) coin lawful owned.0 in
      let (made, others) =
        sign_inputs_total set keypairs tx (signed ++ input ∷ []) coins lawful owned.1 in
      (made, rw first others)

  -- What the loop makes: the inputs are signed one after the other, but each as in the transaction
  -- with all of them, since no signature covers another.
  pub sign_inputs_sound :
      (keypairs : List Keypair) (tx : Transaction) (all signed : List TxInput) (coins : List Coin)
      (made : Transaction)
      → strip_inputs (signed ++ map unsigned_input coins) ≡ strip_inputs all
      → sign_inputs ext signer keypairs tx signed coins ≡ ok made
      → (new : List TxInput) × (made ≡ record tx { inputs = signed ++ new })
        × (strip_inputs (signed ++ new) ≡ strip_inputs all)
        × AreSigned keypairs (record tx { inputs = all }) (length signed) new coins
  unfolding sign_inputs signed_input unsigned_input
  sign_inputs_sound keypairs tx all signed [] made same e =
      ([], rw append-nil (ground arith), same, tt)
  sign_inputs_sound keypairs tx all signed (coin ∷ coins) made same e =
      let current = record tx { inputs = signed ++ map unsigned_input (coin ∷ coins) } in
      let (input, first, others) =
        >>=-eq-ok (sign_input ext signer keypairs current (length signed) coin) _ e in
      let (kp, found, is_signed) =
        sign_input_sound keypairs current (length signed) coin input first in
      let plain : strip_input input ≡ strip_input (unsigned_input coin) = rw is_signed refl in
      let replaced =
        strip_inputs-replace signed (map unsigned_input coins) input (unsigned_input coin) plain in
      let (new, is_made, same', are_signed) =
        sign_inputs_sound keypairs tx all (signed ++ input ∷ []) coins made (replaced ∙ same)
          others in
      let size : length (signed ++ input ∷ []) ≡ suc (length signed) =
        omega (arith, length-append signed (input ∷ [])) in
      let unlocked =
        signed_input-unlocked current (record tx { inputs = all }) (length signed) kp coin
          (ap (λ is. record tx { inputs = is }) same) in
      (
        input ∷ new,
        (rw (append_assoc signed (input ∷ []) new) at is_made),
        (rw (append_assoc signed (input ∷ []) new) at same'),
        ((kp, found, is_signed ∙ unlocked), (rw size at are_signed)),
      )
