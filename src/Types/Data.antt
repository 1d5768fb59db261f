-- ===== src/Types/Data.antt =====
-- core/types.rs: the structs. A `Hash256` is its 32 bytes; that there are 32 is stated where a
-- property needs it. Serde's derived encodings are not modelled here (see `Externals`).
use equiforge.Prelude.{
  ℕ, ◌≡◌, ◌↔◌, arith, Bool, true, ◌&&◌, List, Bytes, Eq, nat_eq, bytes_eq, bytes_eq_iff, replicate,
  length,
}

abbrev pub Hash256 : Type 0
Hash256 = Bytes

abbrev pub IsHash : Hash256 → Type 0
IsHash h = length h ≡ 32

abbrev pub null_hash : Hash256
null_hash = replicate 32 0

pub record OutPoint : Type 0 where
  pub txid : Hash256
  pub vout : ℕ

pub record TxInput : Type 0 where
  pub previous_output : OutPoint
  pub signature : Bytes
  pub pubkey : Bytes
  pub script_sig : Bytes
  pub sequence : ℕ

pub record TxOutput : Type 0 where
  pub amount : ℕ
  pub pubkey_hash : Hash256
  pub script_pubkey : Bytes

pub record Transaction : Type 0 where
  pub version : ℕ
  pub inputs : List TxInput
  pub outputs : List TxOutput
  pub lock_time : ℕ

pub record BlockHeader : Type 0 where
  pub version : ℕ
  pub prev_hash : Hash256
  pub merkle_root : Hash256
  pub timestamp : ℕ
  pub difficulty_target : ℕ
  pub nonce : ℕ
  pub height : ℕ

pub record Block : Type 0 where
  pub header : BlockHeader
  pub transactions : List Transaction

-- The derived `PartialEq` of `OutPoint`.
unfoldable pub outpoint_eq : OutPoint → OutPoint → Bool
outpoint_eq a b = bytes_eq a.txid b.txid && nat_eq a.vout b.vout

pub outpoint_eq_iff : (a b : OutPoint) → (outpoint_eq a b ≡ true) ↔ (a ≡ b)
unfolding outpoint_eq
outpoint_eq_iff a b = ground (arith, bytes_eq_iff a.txid b.txid)

instance abbrev pub outpoint_instance : Eq OutPoint
outpoint_instance = record { beq = outpoint_eq; beq_iff = outpoint_eq_iff }
