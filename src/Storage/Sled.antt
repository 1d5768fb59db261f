-- ===== src/Storage/Sled.antt =====
-- What storage/mod.rs takes from `sled` and `bincode`. An operation of the store gives a result and
-- the store after it.
use equiforge.Prelude.{Bool, ℕ, ◌≡◌, ◌≢◌, Bytes, List, length, Option, none, some, Result, ok}
use equiforge.Types.{BlockHeader, Block}
use equiforge.Chain.Stored.{StoredUtxoEntry, StoredBlockUndo}

-- `sled::Db`, with stores `D` and errors `E`.
pub record Sled (D E : Type 0) : Type 0 where
  pub insert : Bytes → Bytes → D → Result E (Unit {0}) × D
  pub remove : Bytes → D → Result E (Unit {0}) × D
  pub get : D → Bytes → Result E (Option Bytes)
  pub contains_key : D → Bytes → Result E Bool
  pub scan_prefix : D → Bytes → List (Result E (Bytes × Bytes))
  pub clear : D → Result E (Unit {0}) × D
  pub flush : D → Result E (Unit {0}) × D

-- What it documents: what is inserted, and not removed, is found.
pub record IsStore {D E : Type 0} (sled : Sled D E) : Type 0 where
  pub get-insert :
      (k v : Bytes) (d : D)
      → (sled.insert k v d).0 ≡ ok tt
      → sled.get (sled.insert k v d).1 k ≡ ok (some v)
  pub get-insert_other :
      (k j v : Bytes) (d : D)
      → (sled.insert k v d).0 ≡ ok tt
      → k ≢ j
      → sled.get (sled.insert k v d).1 j ≡ sled.get d j
  pub get-remove :
      (k : Bytes) (d : D) → (sled.remove k d).0 ≡ ok tt → sled.get (sled.remove k d).1 k ≡ ok none
  pub get-remove_other :
      (k j : Bytes) (d : D)
      → (sled.remove k d).0 ≡ ok tt
      → k ≢ j
      → sled.get (sled.remove k d).1 j ≡ sled.get d j

-- `bincode::serialize`, which does not fail on these types, and `deserialize`; and `to_le_bytes`
-- and `from_le_bytes` of an `f64`.
pub record Bincode (F : Type 0) : Type 0 where
  pub block : Block → Bytes
  pub to_block : Bytes → Option Block
  pub header : BlockHeader → Bytes
  pub to_header : Bytes → Option BlockHeader
  pub utxo : StoredUtxoEntry → Bytes
  pub to_utxo : Bytes → Option StoredUtxoEntry
  pub undo : StoredBlockUndo → Bytes
  pub to_undo : Bytes → Option StoredBlockUndo
  pub timestamps : List ℕ → Bytes
  pub to_timestamps : Bytes → Option (List ℕ)
  pub float : F → Bytes
  pub to_float : Bytes → F

-- What they document: what is encoded is decoded.
pub record IsFaithful {F : Type 0} (code : Bincode F) : Type 0 where
  pub block : (b : Block) → code.to_block (code.block b) ≡ some b
  pub header : (h : BlockHeader) → code.to_header (code.header h) ≡ some h
  pub utxo : (e : StoredUtxoEntry) → code.to_utxo (code.utxo e) ≡ some e
  pub undo : (u : StoredBlockUndo) → code.to_undo (code.undo u) ≡ some u
  pub timestamps : (ts : List ℕ) → code.to_timestamps (code.timestamps ts) ≡ some ts
  pub float : (f : F) → code.to_float (code.float f) ≡ f
  pub length-float : (f : F) → length (code.float f) ≡ 8
