-- ===== src/Crypto/Signing.antt =====
-- What `tx_signing_hash_v1` binds, and what it leaves open.
use equiforge.Prelude.{ℕ, suc, ◌≡◌, ◌∙◌, sym, ap, refl, List, [], ◌∷◌, Bytes, map, length-map}
use equiforge.Types.{TxInput, TxOutput, Transaction}
use equiforge.Types.Externals.{Externals}
use equiforge.Crypto.Txid.{strip, strip_inputs, length-strip}
use equiforge.Crypto.Hashes.{signing_inputs, signing_outputs, tx_signing_hash_v1}

unfoldable pub relock_output : (TxOutput → Bytes) → TxOutput → TxOutput
relock_output script o = record o { script_pubkey = script o }

-- The transaction with other locking scripts on its outputs.
unfoldable pub relock : (TxOutput → Bytes) → Transaction → Transaction
unfolding relock_output
relock script tx = record tx { outputs = map (relock_output script) tx.outputs }

signing_outputs-relock :
    (script : TxOutput → Bytes) (os : List TxOutput)
    → signing_outputs (map (relock_output script) os) ≡ signing_outputs os
unfolding signing_outputs relock_output
signing_outputs-relock script [] = refl
signing_outputs-relock script (o ∷ os) = rw (signing_outputs-relock script os)

-- The hash that an input signs does not depend on the locking scripts of the outputs.
pub signing_hash-relock :
    (ext : Externals) (script : TxOutput → Bytes) (tx : Transaction) (i : ℕ) (prev : TxOutput)
    → tx_signing_hash_v1 ext (relock script tx) i prev ≡ tx_signing_hash_v1 ext tx i prev
unfolding tx_signing_hash_v1 relock
signing_hash-relock ext script tx i prev =
    rw (signing_outputs-relock script tx.outputs, length-map) refl

signing_inputs-strip :
    (k : ℕ) (prev : TxOutput) (i : ℕ) (is : List TxInput)
    → signing_inputs k prev i (strip_inputs is) ≡ signing_inputs k prev i is
unfolding signing_inputs strip_inputs
signing_inputs-strip k prev i [] = refl
signing_inputs-strip k prev i (input ∷ is) = rw (signing_inputs-strip k prev (suc i) is)

signing_hash-strip :
    (ext : Externals) (tx : Transaction) (i : ℕ) (prev : TxOutput)
    → tx_signing_hash_v1 ext (strip tx) i prev ≡ tx_signing_hash_v1 ext tx i prev
unfolding tx_signing_hash_v1
signing_hash-strip ext tx i prev =
    rw (signing_inputs-strip i prev 0 tx.inputs, length-strip tx.inputs)

-- Nor does it depend on what unlocks the inputs: transactions that differ in that alone have the
-- same one.
pub signing_hash-unlocked :
    (ext : Externals) (t u : Transaction) (i : ℕ) (prev : TxOutput)
    → strip t ≡ strip u
    → tx_signing_hash_v1 ext t i prev ≡ tx_signing_hash_v1 ext u i prev
signing_hash-unlocked ext t u i prev same =
    sym (signing_hash-strip ext t i prev)
    ∙ ap (λ s. tx_signing_hash_v1 ext s i prev) same
    ∙ signing_hash-strip ext u i prev
