-- ===== src/Storage/Db.antt =====
-- storage/mod.rs: `Storage`. Each write gives a result and the store after it.
pub mod Entries
pub mod Access
pub mod Refinement
use equiforge.Prelude.{
  ℕ, Bool, true, false, List, [], ◌∷◌, Bytes, Option, none, some, length, nat_eq, if◌then◌else◌,
  u64_le, Result, ok, err, ◌>>=◌,
}
use equiforge.Types.{Hash256, OutPoint, BlockHeader, Block}
use equiforge.Chain.Utxo.{UtxoEntry}
use equiforge.Chain.Stored.{StoredBlockUndo, stored_entry, to_utxo_entry}
use equiforge.Storage.Sled.{Sled, Bincode}
use equiforge.Storage.Keys.{
  StorageError, db_error, serialize_error, panicked, prefix_block, prefix_header, prefix_height,
  prefix_utxo, prefix_undo, meta_tip, meta_height, meta_timestamps, meta_fractional_diff, be_bytes,
  from_le, prefixed_key, utxo_key, outpoint_from_utxo_key,
}

-- `.map_err(|e| StorageError::DbError(e.to_string()))`
unfoldable pub or_db_error : {A E : Type 0} → Result E A → Result (StorageError E) A
or_db_error (ok a) = ok a
or_db_error (err e) = err (db_error e)

-- `.map_err(|e| StorageError::SerializeError(e.to_string()))`
unfoldable pub or_serialize_error : {A E : Type 0} → Option A → Result (StorageError E) A
or_serialize_error (some a) = ok a
or_serialize_error none = err serialize_error

-- `copy_from_slice` into an array of a size: another size panics.
unfoldable pub sized : {E : Type 0} → ℕ → Bytes → Result (StorageError E) Bytes
sized n bytes = if nat_eq (length bytes) n then ok bytes else err panicked

unfoldable pub to_number : {E : Type 0} → Bytes → Result (StorageError E) ℕ
unfolding sized
to_number bytes = sized 8 bytes >>= λ buf. ok (from_le buf)

-- The `match` that every reader ends with.
unfoldable pub found_as :
    {A E : Type 0}
    → (Bytes → Result (StorageError E) A)
    → Result E (Option Bytes)
    → Result (StorageError E) (Option A)
found_as decode (err e) = err (db_error e)
found_as decode (ok none) = ok none
found_as decode (ok (some bytes)) = decode bytes >>= λ a. ok (some a)

module _ {D E F : Type 0} (sled : Sled D E) (code : Bincode F) where
  abbrev pub Written : Type 0
  Written = Result (StorageError E) (Unit {0}) × D

  abbrev pub Read : Type 0 → Type 0
  Read A = Result (StorageError E) (Option A)

  -- `self.db.insert(key, value).map_err(..)?; Ok(())`, and so for `remove`.
  unfoldable pub insert_at : Bytes → Bytes → D → Written
  insert_at key value d = let (r, d') = sled.insert key value d in (or_db_error r, d')

  unfoldable pub remove_at : Bytes → D → Written
  remove_at key d = let (r, d') = sled.remove key d in (or_db_error r, d')

  unfoldable pub has_chain_data : D → Bool
  has_chain_data d = elim (sled.contains_key d meta_tip) [ ok found ↦ found | err _ ↦ false ]

  unfoldable pub put_block : Hash256 → Block → D → Written
  put_block hash block d = insert_at (prefixed_key prefix_block hash) (code.block block) d

  unfoldable pub get_block : D → Hash256 → Read Block
  get_block d hash =
      found_as (λ bytes. or_serialize_error (code.to_block bytes))
        (sled.get d (prefixed_key prefix_block hash))

  unfoldable pub put_header : Hash256 → BlockHeader → D → Written
  put_header hash header d = insert_at (prefixed_key prefix_header hash) (code.header header) d

  unfoldable pub get_header : D → Hash256 → Read BlockHeader
  get_header d hash =
      found_as (λ bytes. or_serialize_error (code.to_header bytes))
        (sled.get d (prefixed_key prefix_header hash))

  unfoldable pub put_height_index : ℕ → Hash256 → D → Written
  put_height_index height hash d = insert_at (prefixed_key prefix_height (be_bytes 8 height)) hash d

  unfoldable pub get_hash_at_height : D → ℕ → Read Hash256
  get_hash_at_height d height =
      found_as (sized 32) (sled.get d (prefixed_key prefix_height (be_bytes 8 height)))

  unfoldable pub put_utxo : OutPoint → UtxoEntry → D → Written
  put_utxo outpoint entry d = insert_at (utxo_key outpoint) (code.utxo (stored_entry entry)) d

  unfoldable pub remove_utxo : OutPoint → D → Written
  remove_utxo outpoint d = remove_at (utxo_key outpoint) d

  unfoldable pub decode_utxo : Bytes → Result (StorageError E) UtxoEntry
  decode_utxo bytes =
      or_serialize_error (code.to_utxo bytes) >>= λ stored. ok (to_utxo_entry stored)

  unfoldable pub get_utxo : D → OutPoint → Read UtxoEntry
  get_utxo d outpoint = found_as decode_utxo (sled.get d (utxo_key outpoint))

  -- The loop of `load_all_utxos`.
  unfoldable pub load_utxos :
      List (Result E (Bytes × Bytes)) → Result (StorageError E) (List (OutPoint × UtxoEntry))
  load_utxos [] = ok []
  load_utxos (item ∷ items) = do
    (key, value) ← or_db_error item
    outpoint ← outpoint_from_utxo_key key
    entry ← decode_utxo value
    utxos ← load_utxos items
    ok ((outpoint, entry) ∷ utxos)

  unfoldable pub load_all_utxos : D → Result (StorageError E) (List (OutPoint × UtxoEntry))
  load_all_utxos d = load_utxos (sled.scan_prefix d prefix_utxo)

  unfoldable pub put_undo : Hash256 → StoredBlockUndo → D → Written
  put_undo block_hash undo d = insert_at (prefixed_key prefix_undo block_hash) (code.undo undo) d

  unfoldable pub get_undo : D → Hash256 → Read StoredBlockUndo
  get_undo d block_hash =
      found_as (λ bytes. or_serialize_error (code.to_undo bytes))
        (sled.get d (prefixed_key prefix_undo block_hash))

  unfoldable pub remove_undo : Hash256 → D → Written
  remove_undo block_hash d = remove_at (prefixed_key prefix_undo block_hash) d

  -- The items that cannot be read are passed over.
  unfoldable pub keys_of : List (Result E (Bytes × Bytes)) → List Bytes
  keys_of [] = []
  keys_of (ok (key, _) ∷ items) = key ∷ keys_of items
  keys_of (err _ ∷ items) = keys_of items

  unfoldable pub remove_keys : List Bytes → D → Written
  remove_keys [] d = (ok tt, d)
  remove_keys (key ∷ keys) d =
      let (r, d') = remove_at key d in
      let others = remove_keys keys d' in elim r [ err e ↦ (err e, d') | ok _ ↦ others ]

  unfoldable pub clear_height_index : D → Written
  clear_height_index d = remove_keys (keys_of (sled.scan_prefix d prefix_height)) d

  unfoldable pub put_tip : Hash256 → D → Written
  put_tip hash d = insert_at meta_tip hash d

  unfoldable pub get_tip : D → Read Hash256
  get_tip d = found_as (sized 32) (sled.get d meta_tip)

  unfoldable pub put_height : ℕ → D → Written
  put_height height d = insert_at meta_height (u64_le height) d

  unfoldable pub get_height : D → Read ℕ
  get_height d = found_as to_number (sled.get d meta_height)

  unfoldable pub put_timestamps : List ℕ → D → Written
  put_timestamps timestamps d = insert_at meta_timestamps (code.timestamps timestamps) d

  unfoldable pub get_timestamps : D → Read (List ℕ)
  get_timestamps d =
      found_as (λ bytes. or_serialize_error (code.to_timestamps bytes)) (sled.get d meta_timestamps)

  unfoldable pub put_fractional_difficulty : F → D → Written
  put_fractional_difficulty frac d = insert_at meta_fractional_diff (code.float frac) d

  unfoldable pub get_fractional_difficulty : D → Read F
  get_fractional_difficulty d =
      found_as (λ bytes. sized 8 bytes >>= λ buf. ok (code.to_float buf))
        (sled.get d meta_fractional_diff)

  unfoldable pub flush : D → Written
  flush d = let (r, d') = sled.flush d in (or_db_error r, d')

  unfoldable pub clear_all : D → Written
  clear_all d =
      let (r, d') = sled.clear d in
      let flushed = flush d' in elim r [ err e ↦ (err (db_error e), d') | ok _ ↦ flushed ]
