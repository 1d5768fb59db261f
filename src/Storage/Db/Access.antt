-- ===== src/Storage/Db/Access.antt =====
-- The writer for an entry and the reader for a key, and what a reader depends on.
use equiforge.Prelude.{◌≡◌, refl, Bytes, Option, none, some, u64_le, Result, ok, length-le_bytes}
use equiforge.Chain.Stored.{stored_entry, to_utxo_entry}
use equiforge.Storage.Sled.{Sled, Bincode, IsFaithful}
use equiforge.Storage.Keys.{StorageError}
use equiforge.Storage.Keys.Laws.{from_le-le_bytes}
use equiforge.Storage.Db.{
  found_as, or_serialize_error, sized, to_number, decode_utxo, insert_at, put_block, get_block,
  put_header, get_header, put_height_index, get_hash_at_height, put_utxo, get_utxo, put_undo,
  get_undo, put_tip, get_tip, put_height, get_height, put_timestamps, get_timestamps,
  put_fractional_difficulty, get_fractional_difficulty,
}
use equiforge.Storage.Db.Entries.{
  Key, block_at, header_at, undo_at, hash_at, utxo_at, tip, height, timestamps,
  fractional_difficulty, Entry, block, header, undo, hash, utxo, the_tip, the_height,
  the_timestamps, the_difficulty, bytes_of, key_of, ValueFits, as_entry,
}

module _ {D E F : Type 0} (sled : Sled D E) (code : Bincode F) where
  -- The writer for an entry, and the reader for a key.
  unfoldable pub put : Entry F → D → Result (StorageError E) (Unit {0}) × D
  put (block h b) d = put_block sled code h b d
  put (header h b) d = put_header sled code h b d
  put (undo h u) d = put_undo sled code h u d
  put (hash n h) d = put_height_index sled code n h d
  put (utxo op e) d = put_utxo sled code op e d
  put (the_tip h) d = put_tip sled code h d
  put (the_height n) d = put_height sled code n d
  put (the_timestamps ts) d = put_timestamps sled code ts d
  put (the_difficulty f) d = put_fractional_difficulty sled code f d

  unfoldable pub read : D → Key → Result (StorageError E) (Option (Entry F))
  unfolding as_entry
  read d (block_at h) = as_entry (λ b. block h b) (get_block sled code d h)
  read d (header_at h) = as_entry (λ b. header h b) (get_header sled code d h)
  read d (undo_at h) = as_entry (λ u. undo h u) (get_undo sled code d h)
  read d (hash_at n) = as_entry (λ h. hash n h) (get_hash_at_height sled code d n)
  read d (utxo_at op) = as_entry (λ e. utxo op e) (get_utxo sled code d op)
  read d tip = as_entry (λ h. the_tip h) (get_tip sled code d)
  read d height = as_entry (λ n. the_height n) (get_height sled code d)
  read d timestamps = as_entry (λ ts. the_timestamps ts) (get_timestamps sled code d)
  read d fractional_difficulty =
      as_entry (λ f. the_difficulty f) (get_fractional_difficulty sled code d)

  unfoldable pub value_of : Entry F → Bytes
  value_of (block h b) = code.block b
  value_of (header h b) = code.header b
  value_of (undo h u) = code.undo u
  value_of (hash n h) = h
  value_of (utxo op e) = code.utxo (stored_entry e)
  value_of (the_tip h) = h
  value_of (the_height n) = u64_le n
  value_of (the_timestamps ts) = code.timestamps ts
  value_of (the_difficulty f) = code.float f

  pub put-insert_at :
      (e : Entry F) (d : D) → put e d ≡ insert_at sled code (bytes_of (key_of e)) (value_of e) d
  unfolding put value_of bytes_of put_block put_header put_undo put_height_index put_utxo put_tip
      put_height put_timestamps put_fractional_difficulty
  put-insert_at (block h b) d = refl
  put-insert_at (header h b) d = refl
  put-insert_at (undo h u) d = refl
  put-insert_at (hash n h) d = refl
  put-insert_at (utxo op e) d = refl
  put-insert_at (the_tip h) d = refl
  put-insert_at (the_height n) d = refl
  put-insert_at (the_timestamps ts) d = refl
  put-insert_at (the_difficulty f) d = refl

  -- A reader depends on what is found at the bytes of its key, and on nothing else.
  pub read-same :
      (d d' : D) (key : Key)
      → sled.get d' (bytes_of key) ≡ sled.get d (bytes_of key)
      → read d' key ≡ read d key
  unfolding read bytes_of get_block get_header get_undo get_hash_at_height get_utxo get_tip
      get_height get_timestamps get_fractional_difficulty
  read-same d d' (block_at h) e = rw e refl
  read-same d d' (header_at h) e = rw e refl
  read-same d d' (undo_at h) e = rw e refl
  read-same d d' (hash_at n) e = rw e refl
  read-same d d' (utxo_at op) e = rw e refl
  read-same d d' tip e = rw e refl
  read-same d d' height e = rw e refl
  read-same d d' timestamps e = rw e refl
  read-same d d' fractional_difficulty e = rw e refl

  pub read_nothing :
      (d : D) (key : Key) → sled.get d (bytes_of key) ≡ ok none → read d key ≡ ok none
  unfolding read bytes_of get_block get_header get_undo get_hash_at_height get_utxo get_tip
      get_height get_timestamps get_fractional_difficulty found_as
  read_nothing d (block_at h) e = rw e refl
  read_nothing d (header_at h) e = rw e refl
  read_nothing d (undo_at h) e = rw e refl
  read_nothing d (hash_at n) e = rw e refl
  read_nothing d (utxo_at op) e = rw e refl
  read_nothing d tip e = rw e refl
  read_nothing d height e = rw e refl
  read_nothing d timestamps e = rw e refl
  read_nothing d fractional_difficulty e = rw e refl

  pub read_back :
      (d : D) (e : Entry F)
      → IsFaithful code
      → ValueFits e
      → sled.get d (bytes_of (key_of e)) ≡ ok (some (value_of e))
      → read d (key_of e) ≡ ok (some e)
  unfolding read value_of bytes_of get_block get_header get_undo get_hash_at_height get_utxo get_tip
      get_height get_timestamps get_fractional_difficulty found_as or_serialize_error sized
      to_number decode_utxo stored_entry to_utxo_entry
  read_back d (block h b) faithful fits e = rw (e, faithful.block b) refl
  read_back d (header h b) faithful fits e = rw (e, faithful.header b) refl
  read_back d (undo h u) faithful fits e = rw (e, faithful.undo u) refl
  read_back d (hash n h) faithful fits e = rw (e, fits) refl
  read_back d (utxo op x) faithful fits e = rw (e, faithful.utxo (stored_entry x)) refl
  read_back d (the_tip h) faithful fits e = rw (e, fits) refl
  read_back d (the_height n) faithful fits e =
      rw (e, length-le_bytes 8 n, from_le-le_bytes 8 n fits) refl
  read_back d (the_timestamps ts) faithful fits e = rw (e, faithful.timestamps ts) refl
  read_back d (the_difficulty f) faithful fits e =
      rw (e, faithful.length-float f, faithful.float f) refl
