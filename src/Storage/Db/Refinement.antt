-- ===== src/Storage/Db/Refinement.antt =====
-- The database implements a map from keys to entries: each write sets or clears one key, and the
-- readers show the map.
use equiforge.Prelude.{
  ◌≡◌, ◌≢◌, refl, sym, ap, ◌∙◌, Bool-cases, inl, inr, List, [], ◌∷◌, Bytes, Option, none, some,
  bytes_eq, bytes_eq_iff, bytes_eq_refl, Result, ok, err,
}
use equiforge.Types.{Hash256, OutPoint}
use equiforge.Chain.Utxo.{UtxoEntry}
use equiforge.Chain.Stored.{stored_entry, to_utxo_entry}
use equiforge.Storage.Sled.{Sled, IsStore, Bincode, IsFaithful}
use equiforge.Storage.Keys.{StorageError, utxo_key}
use equiforge.Storage.Keys.Laws.{outpoint_from_utxo_key-utxo_key}
use equiforge.Storage.Db.{
  or_db_error, or_serialize_error, decode_utxo, load_utxos, insert_at, remove_at, remove_utxo,
  remove_undo,
}
use equiforge.Storage.Db.Entries.{
  Key, undo_at, utxo_at, Entry, KeyFits, bytes_of, bytes_of-injective, key_of, ValueFits,
}
use equiforge.Storage.Db.Access.{
  put, read, value_of, put-insert_at, read-same, read_nothing, read_back,
}

-- The writes of a node: of an entry, and the removals.
pub data Write (F : Type 0) : Type 0 where
  put_entry : Entry F → Write F
  drop_utxo : OutPoint → Write F
  drop_undo : Hash256 → Write F

module _ {F : Type 0} where
  -- The key that a write concerns, and what is under it afterwards.
  abbrev pub written_key : Write F → Key
  written_key (put_entry e) = key_of e
  written_key (drop_utxo op) = utxo_at op
  written_key (drop_undo h) = undo_at h

  abbrev pub written_entry : Write F → Option (Entry F)
  written_entry (put_entry e) = some e
  written_entry (drop_utxo op) = none
  written_entry (drop_undo h) = none

  abbrev pub WriteFits : Write F → Type 0
  WriteFits (put_entry e) = KeyFits (key_of e) × ValueFits e
  WriteFits w = KeyFits (written_key w)

  -- The specification of a write: it sets its key, and no other.
  abbrev pub Sets : Write F → (Key → Option (Entry F)) → (Key → Option (Entry F)) → Type 0
  Sets w s s' =
      (s' (written_key w) ≡ written_entry w)
      × ((j : Key) → KeyFits j → written_key w ≢ j → s' j ≡ s j)

  written_key-fits : (w : Write F) → WriteFits w → KeyFits (written_key w)
  written_key-fits (put_entry e) fits = fits.0
  written_key-fits (drop_utxo op) fits = fits
  written_key-fits (drop_undo h) fits = fits

or_db_error_ok : {A E : Type 0} → (r : Result E A) (a : A) → or_db_error r ≡ ok a → r ≡ ok a
unfolding or_db_error
or_db_error_ok (ok b) a e = cc
or_db_error_ok (err x) a e = absurd (cc)

module _ {D E F : Type 0} (sled : Sled D E) (code : Bincode F) where
  -- The writes as the node makes them.
  unfoldable pub run : Write F → D → Result (StorageError E) (Unit {0}) × D
  run (put_entry e) d = put sled code e d
  run (drop_utxo op) d = remove_utxo sled code op d
  run (drop_undo h) d = remove_undo sled code h d

  -- The readers show the map.
  abbrev pub Shows : D → (Key → Option (Entry F)) → Type 0
  Shows d s = (j : Key) → KeyFits j → read sled code d j ≡ ok (s j)

  insert_at_found :
      (k v : Bytes) (d : D)
      → IsStore sled
      → (insert_at sled code k v d).0 ≡ ok tt
      → sled.get (insert_at sled code k v d).1 k ≡ ok (some v)
  unfolding insert_at
  insert_at_found k v d store done =
      store.get-insert k v d (or_db_error_ok (sled.insert k v d).0 tt done)

  insert_at_other :
      (k v j : Bytes) (d : D)
      → IsStore sled
      → (insert_at sled code k v d).0 ≡ ok tt
      → k ≢ j
      → sled.get (insert_at sled code k v d).1 j ≡ sled.get d j
  unfolding insert_at
  insert_at_other k v j d store done =
      store.get-insert_other k j v d (or_db_error_ok (sled.insert k v d).0 tt done)

  remove_at_found :
      (k : Bytes) (d : D)
      → IsStore sled
      → (remove_at sled code k d).0 ≡ ok tt
      → sled.get (remove_at sled code k d).1 k ≡ ok none
  unfolding remove_at
  remove_at_found k d store done = store.get-remove k d (or_db_error_ok (sled.remove k d).0 tt done)

  remove_at_other :
      (k j : Bytes) (d : D)
      → IsStore sled
      → (remove_at sled code k d).0 ≡ ok tt
      → k ≢ j
      → sled.get (remove_at sled code k d).1 j ≡ sled.get d j
  unfolding remove_at
  remove_at_other k j d store done =
      store.get-remove_other k j d (or_db_error_ok (sled.remove k d).0 tt done)

  -- After a write that succeeded its key holds what the write set, and other keys what they held.
  run_here :
      (w : Write F) (d : D)
      → IsStore sled
      → IsFaithful code
      → WriteFits w
      → (run w d).0 ≡ ok tt
      → read sled code (run w d).1 (written_key w) ≡ ok (written_entry w)
  unfolding run remove_utxo remove_undo bytes_of
  run_here (put_entry e) d store faithful fits done =
      let same = put-insert_at sled code e d in
      let found =
        insert_at_found (bytes_of (key_of e)) (value_of sled code e) d store (rw same at done) in
      rw same (
        read_back sled code (insert_at sled code (bytes_of (key_of e)) (value_of sled code e) d).1 e
          faithful fits.1 found)
  run_here (drop_utxo op) d store faithful fits done =
      read_nothing sled code (remove_utxo sled code op d).1 (utxo_at op)
        (remove_at_found (bytes_of (utxo_at op)) d store done)
  run_here (drop_undo h) d store faithful fits done =
      read_nothing sled code (remove_undo sled code h d).1 (undo_at h)
        (remove_at_found (bytes_of (undo_at h)) d store done)

  run_elsewhere :
      (w : Write F) (d : D) (j : Key)
      → IsStore sled
      → bytes_of (written_key w) ≢ bytes_of j
      → (run w d).0 ≡ ok tt
      → read sled code (run w d).1 j ≡ read sled code d j
  unfolding run remove_utxo remove_undo bytes_of
  run_elsewhere (put_entry e) d j store apart done =
      let k = bytes_of (key_of e) in
      let v = value_of sled code e in
      let same = put-insert_at sled code e d in
      rw same (
        read-same sled code d (insert_at sled code k v d).1 j
          (insert_at_other k v (bytes_of j) d store (rw same at done) apart))
  run_elsewhere (drop_utxo op) d j store apart done =
      read-same sled code d (remove_utxo sled code op d).1 j
        (remove_at_other (bytes_of (utxo_at op)) (bytes_of j) d store done apart)
  run_elsewhere (drop_undo h) d j store apart done =
      read-same sled code d (remove_undo sled code h d).1 j
        (remove_at_other (bytes_of (undo_at h)) (bytes_of j) d store done apart)

  -- A write that succeeds takes a database that shows a map to one that shows the map with the
  -- write's key set, or cleared, and nothing else changed, if the store and the encodings do what
  -- they document and what is written fits its types.
  pub run-Shows :
      (w : Write F) (d : D) (s s' : Key → Option (Entry F))
      → IsStore sled
      → IsFaithful code
      → WriteFits w
      → Sets w s s'
      → (run w d).0 ≡ ok tt
      → Shows d s
      → Shows (run w d).1 s'
  run-Shows w d s s' store faithful fits sets done shows j j_fits =
      elim (Bool-cases (bytes_eq (bytes_of (written_key w)) (bytes_of j))) [
        | inl same ↦
            let e = (bytes_eq_iff (bytes_of (written_key w)) (bytes_of j)).0 same in
            let key = bytes_of-injective (written_key w) j (written_key-fits w fits) j_fits e in
            let here = run_here w d store faithful fits done in
            (rw key at here) ∙ ap (λ o. ok o) (sym sets.0 ∙ ap s' key)
        | inr other ↦
            let apart : bytes_of (written_key w) ≢ bytes_of j =
              λ e. cc (e, other, bytes_eq_refl (bytes_of j)) in
            let still = run_elsewhere w d j store apart done in
            still
            ∙ shows j j_fits
            ∙ ap (λ o. ok o) (sym (sets.1 j j_fits (λ e. apart (ap bytes_of e))))
      ]

  -- What the scan of the prefix gives where the store holds these outputs.
  abbrev pub utxo_items : List (OutPoint × UtxoEntry) → List (Result E (Bytes × Bytes))
  utxo_items [] = []
  utxo_items ((op, e) ∷ utxos) = ok (utxo_key op, code.utxo (stored_entry e)) ∷ utxo_items utxos

  abbrev pub OutPointsFit : List (OutPoint × UtxoEntry) → Type 0
  OutPointsFit [] = Unit
  OutPointsFit ((op, _) ∷ utxos) = KeyFits (utxo_at op) × OutPointsFit utxos

  -- The outputs that are stored are loaded, in the order of the scan.
  pub load_utxos-utxo_items :
      (utxos : List (OutPoint × UtxoEntry))
      → IsFaithful code
      → OutPointsFit utxos
      → load_utxos sled code (utxo_items utxos) ≡ ok utxos
  unfolding load_utxos or_db_error decode_utxo or_serialize_error stored_entry to_utxo_entry
  load_utxos-utxo_items [] faithful fits = refl
  load_utxos-utxo_items ((op, e) ∷ utxos) faithful fits =
      rw
        (
          outpoint_from_utxo_key-utxo_key {E = E} op fits.0.0 fits.0.1,
          faithful.utxo (stored_entry e),
          load_utxos-utxo_items utxos faithful fits.1,
        )
        refl
