-- ===== src/Crypto/Txid.antt =====
-- What `txid_v1` depends on.
use equiforge.Prelude.{
  ℕ, ◌≡◌, ◌<◌, refl, sym, ◌∙◌, append_assoc, arith, List, [], ◌∷◌, ◌++◌, Bytes, length, All,
  u32_mod, u64_mod, u32_le, u64_le, le_bytes-injective, length-le_bytes, append_cancel,
}
use equiforge.Types.{Hash256, IsHash, TxInput, TxOutput, Transaction}
use equiforge.Types.Externals.{Externals}
use equiforge.Types.Coinbase.{new_coinbase}
use equiforge.Crypto.Hashes.{txid_inputs, txid_outputs, txid_preimage, txid_v1, txid_tag}

-- An input without its unlocking data.
abbrev pub strip_input : TxInput → TxInput
strip_input i = record i { signature = []; pubkey = []; script_sig = [] }

unfoldable pub strip_inputs : List TxInput → List TxInput
strip_inputs [] = []
strip_inputs (i ∷ is) = strip_input i ∷ strip_inputs is

-- The transaction without its unlocking data.
abbrev pub strip : Transaction → Transaction
strip tx = record tx { inputs = strip_inputs tx.inputs }

-- Two coinbase transactions that pay one reward to the same hashes have the same id, whatever
-- their heights and tags.
pub coinbase_txid_ignores_height :
    (ext : Externals) (h k reward : ℕ) (miner fund : Hash256) (tag tag' : Bytes)
    → txid_v1 ext (new_coinbase h reward miner fund tag)
      ≡ txid_v1 ext (new_coinbase k reward miner fund tag')
unfolding txid_v1 new_coinbase
coinbase_txid_ignores_height ext h k reward miner fund tag tag' = refl

-- The fields of the source's types fit their widths.
pub record InputFits (i : TxInput) : Type 0 where
  pub txid : IsHash i.previous_output.txid
  pub vout : i.previous_output.vout < u32_mod
  pub sequence : i.sequence < u32_mod

pub record OutputFits (o : TxOutput) : Type 0 where
  pub amount : o.amount < u64_mod
  pub pubkey_hash : IsHash o.pubkey_hash
  pub script_pubkey : length o.script_pubkey < u32_mod

pub record TxFits (tx : Transaction) : Type 0 where
  pub version : tx.version < u32_mod
  pub inputs : All InputFits tx.inputs
  pub few_inputs : length tx.inputs < u32_mod
  pub outputs : All OutputFits tx.outputs
  pub few_outputs : length tx.outputs < u32_mod
  pub lock_time : tx.lock_time < u64_mod

-- A number on four bytes is read off the front.
u32_cancel :
    (x y : ℕ) (r s : Bytes)
    → x < u32_mod
    → y < u32_mod
    → u32_le x ++ r ≡ u32_le y ++ s
    → (x ≡ y) × (r ≡ s)
u32_cancel x y r s hx hy e =
    let (front, others) =
      append_cancel (u32_le x) (u32_le y) r s
        (omega (arith, length-le_bytes 4 x, length-le_bytes 4 y)) e in
    (le_bytes-injective 4 x y hx hy front, others)

u64_cancel :
    (x y : ℕ) (r s : Bytes)
    → x < u64_mod
    → y < u64_mod
    → u64_le x ++ r ≡ u64_le y ++ s
    → (x ≡ y) × (r ≡ s)
u64_cancel x y r s hx hy e =
    let (front, others) =
      append_cancel (u64_le x) (u64_le y) r s
        (omega (arith, length-le_bytes 8 x, length-le_bytes 8 y)) e in
    (le_bytes-injective 8 x y hx hy front, others)

-- The encodings of as many inputs are equal, with what follows, only if the inputs are equal but
-- for their unlocking data.
inputs_cancel :
    (is js : List TxInput) (r s : Bytes)
    → All InputFits is
    → All InputFits js
    → length is ≡ length js
    → txid_inputs is ++ r ≡ txid_inputs js ++ s
    → (strip_inputs is ≡ strip_inputs js) × (r ≡ s)
unfolding txid_inputs strip_inputs
inputs_cancel [] [] r s fi fj n e = (refl, e)
inputs_cancel [] (j ∷ js) r s fi fj n e = absurd (omega arith)
inputs_cancel (i ∷ is) [] r s fi fj n e = absurd (omega arith)
inputs_cancel (i ∷ is) (j ∷ js) r s fi fj n e =
    let e₁ = simp append_assoc at e in
    let (txid, e₂) =
      append_cancel i.previous_output.txid j.previous_output.txid _ _ (fi.0.txid ∙ sym fj.0.txid)
        e₁ in
    let (vout, e₃) =
      u32_cancel i.previous_output.vout j.previous_output.vout _ _ fi.0.vout fj.0.vout e₂ in
    let (sequence, e₄) = u32_cancel i.sequence j.sequence _ _ fi.0.sequence fj.0.sequence e₃ in
    let (others, left) = inputs_cancel is js r s fi.1 fj.1 (omega arith) e₄ in
    let same : strip_input i ≡ strip_input j = λ d. record {
      previous_output = record { txid = txid d; vout = vout d };
      signature = [];
      pubkey = [];
      script_sig = [];
      sequence = sequence d;
    } in
    (λ d. same d ∷ others d, left)

outputs_cancel :
    (os ps : List TxOutput) (r s : Bytes)
    → All OutputFits os
    → All OutputFits ps
    → length os ≡ length ps
    → txid_outputs os ++ r ≡ txid_outputs ps ++ s
    → (os ≡ ps) × (r ≡ s)
unfolding txid_outputs
outputs_cancel [] [] r s fo fp n e = (refl, e)
outputs_cancel [] (p ∷ ps) r s fo fp n e = absurd (omega arith)
outputs_cancel (o ∷ os) [] r s fo fp n e = absurd (omega arith)
outputs_cancel (o ∷ os) (p ∷ ps) r s fo fp n e =
    let e₁ = simp append_assoc at e in
    let (amount, e₂) = u64_cancel o.amount p.amount _ _ fo.0.amount fp.0.amount e₁ in
    let (hash, e₃) =
      append_cancel o.pubkey_hash p.pubkey_hash _ _ (fo.0.pubkey_hash ∙ sym fp.0.pubkey_hash) e₂ in
    let (size, e₄) =
      u32_cancel (length o.script_pubkey) (length p.script_pubkey) _ _ fo.0.script_pubkey
        fp.0.script_pubkey e₃ in
    let (script, e₅) = append_cancel o.script_pubkey p.script_pubkey _ _ size e₄ in
    let (others, left) = outputs_cancel os ps r s fo.1 fp.1 (omega arith) e₅ in
    let same : o ≡ p =
      λ d. record { amount = amount d; pubkey_hash = hash d; script_pubkey = script d } in
    (λ d. same d ∷ others d, left)

-- The string that `txid_v1` hashes fixes the whole transaction but for its unlocking data.
pub txid_preimage-injective :
    (t u : Transaction)
    → TxFits t
    → TxFits u
    → txid_preimage t ≡ txid_preimage u
    → strip t ≡ strip u
unfolding txid_preimage
txid_preimage-injective t u ft fu e =
    let e₀ = simp append_assoc at e in
    let (_, e₁) = append_cancel txid_tag txid_tag _ _ refl e₀ in
    let (version, e₂) = u32_cancel t.version u.version _ _ ft.version fu.version e₁ in
    let (ins, e₃) =
      u32_cancel (length t.inputs) (length u.inputs) _ _ ft.few_inputs fu.few_inputs e₂ in
    let (inputs, e₄) = inputs_cancel t.inputs u.inputs _ _ ft.inputs fu.inputs ins e₃ in
    let (outs, e₅) =
      u32_cancel (length t.outputs) (length u.outputs) _ _ ft.few_outputs fu.few_outputs e₄ in
    let (outputs, e₆) = outputs_cancel t.outputs u.outputs _ _ ft.outputs fu.outputs outs e₅ in
    let lock : t.lock_time ≡ u.lock_time =
      le_bytes-injective 8 t.lock_time u.lock_time ft.lock_time fu.lock_time e₆ in
    λ d. record { version = version d; inputs = inputs d; outputs = outputs d; lock_time = lock d }

txid_inputs-strip : (is : List TxInput) → txid_inputs (strip_inputs is) ≡ txid_inputs is
unfolding txid_inputs strip_inputs
txid_inputs-strip [] = refl
txid_inputs-strip (i ∷ is) = rw (txid_inputs-strip is)

pub length-strip : (is : List TxInput) → length (strip_inputs is) ≡ length is
unfolding strip_inputs
length-strip [] = refl
length-strip (i ∷ is) = rw (length-strip is)

-- The id of a transaction does not depend on its unlocking data.
pub txid-strip : (ext : Externals) (t : Transaction) → txid_v1 ext (strip t) ≡ txid_v1 ext t
unfolding txid_v1
txid-strip ext t = rw (txid_inputs-strip t.inputs, length-strip t.inputs)
