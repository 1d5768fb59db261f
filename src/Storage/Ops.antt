-- ===== src/Storage/Ops.antt =====
-- What core/chain.rs asks of its storage, filled by `Storage`: a write is the store that it leaves.
use equiforge.Prelude.{Result, ok, err}
use equiforge.Chain.Stored.{StorageOps}
use equiforge.Chain.Load.{StorageReads}
use equiforge.Storage.Sled.{Sled, Bincode}
use equiforge.Storage.Keys.{StorageError}
use equiforge.Storage.Db

-- The chain only tests whether an undo record could be read.
abbrev pub ignore_error : {A E : Type 0} → Result E A → Result (Unit {0}) A
ignore_error (ok a) = ok a
ignore_error (err e) = err tt

module _ {D E F : Type 0} (sled : Sled D E) (code : Bincode F) where
  abbrev pub storage_ops : StorageOps F D
  storage_ops = record {
    put_block = λ hash block d. (Db.put_block sled code hash block d).1;
    put_header = λ hash header d. (Db.put_header sled code hash header d).1;
    put_height_index = λ height hash d. (Db.put_height_index sled code height hash d).1;
    clear_height_index = λ d. (Db.clear_height_index sled code d).1;
    put_utxo = λ outpoint entry d. (Db.put_utxo sled code outpoint entry d).1;
    remove_utxo = λ outpoint d. (Db.remove_utxo sled code outpoint d).1;
    put_undo = λ hash undo d. (Db.put_undo sled code hash undo d).1;
    get_undo = λ hash d. ignore_error (Db.get_undo sled code d hash);
    put_tip = λ hash d. (Db.put_tip sled code hash d).1;
    put_height = λ height d. (Db.put_height sled code height d).1;
    put_timestamps = λ timestamps d. (Db.put_timestamps sled code timestamps d).1;
    put_fractional_difficulty = λ frac d. (Db.put_fractional_difficulty sled code frac d).1;
    flush = λ d. (Db.flush sled code d).1;
    clear_all = λ d. (Db.clear_all sled code d).1;
  }

  abbrev pub storage_reads : StorageReads F D (StorageError E)
  storage_reads = record {
    has_chain_data = λ d. Db.has_chain_data sled code d;
    get_tip = λ d. Db.get_tip sled code d;
    get_height = λ d. Db.get_height sled code d;
    get_timestamps = λ d. Db.get_timestamps sled code d;
    get_fractional_difficulty = λ d. Db.get_fractional_difficulty sled code d;
    get_hash_at_height = λ d height. Db.get_hash_at_height sled code d height;
    get_header = λ d hash. Db.get_header sled code d hash;
    get_block = λ d hash. Db.get_block sled code d hash;
    load_all_utxos = λ d. Db.load_all_utxos sled code d;
  }
