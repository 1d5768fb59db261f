-- ===== src/Tests/Storage.antt =====
-- A store as a map, with no failures, and what is written to it and read from it.
use equiforge.Prelude.{
  ℕ, zero, suc, ℕ_eq, ◌≡◌, ◌≢◌, ◌≤◌, refl, arith, List, [], ◌∷◌, Bytes, Option, none, some, Result,
  ok, replicate, bytes_instance, bytes_eq, bytes_eq_iff, if◌then◌else◌, length, take, ap, true,
  false,
}
use equiforge.Prelude.Maps.{
  contains_key, Map, get, insert, remove, get-insert, get-remove, get-insert_self,
}
use equiforge.Types.{Hash256, OutPoint}
use equiforge.Chain.State.{Chain}
use equiforge.Chain.Load.{StorageReads, load_from_storage, with_block, with_header}
use equiforge.Chain.Load.Laws.{load_from_storage-index}
use equiforge.Storage.Sled.{Sled, IsStore}
use equiforge.Storage.Db.Entries.{
  Key, Entry, KeyFits, tip, the_tip, block_at, header_at, undo_at, hash_at, utxo_at, height,
  timestamps, fractional_difficulty,
}
use equiforge.Storage.Db.{put_tip, insert_at, or_db_error}
use equiforge.Storage.Db.Access.{put, read_nothing}
use equiforge.Params.Rewards.{initial_difficulty}
use equiforge.Storage.Db.Refinement.{put_entry, Sets, run, Shows, run-Shows}
use equiforge.Tests.Toy.{toy_env}
use equiforge.Tests.Format.{toy_code, toy_code-IsFaithful}

abbrev Store : Type 0
Store = Map Bytes Bytes

abbrev with_prefix : Bytes → Store → List (Result (Unit {0}) (Bytes × Bytes))
with_prefix prefix [] = []
with_prefix prefix ((k, v) ∷ d) =
    let others = with_prefix prefix d in
    if bytes_eq (take (length prefix) k) prefix then ok (k, v) ∷ others else others

abbrev map_store : Sled Store (Unit {0})
map_store = record {
  insert = λ k v d. (ok tt, insert k v d);
  remove = λ k d. (ok tt, remove k d);
  get = λ d k. ok (get d k);
  contains_key = λ d k. ok (contains_key d k);
  scan_prefix = λ d prefix. with_prefix prefix d;
  clear = λ d. (ok tt, []);
  flush = λ d. (ok tt, d);
}

is_store : IsStore map_store
is_store = record {
  get-insert = λ k v d done. ap (λ o. ok o) (get-insert_self k v d);
  get-insert_other =
      λ k j v d done apart. ap (λ o. ok o) (ground (arith, get-insert k j v d, bytes_eq_iff k j));
  get-remove = λ k d done. ap (λ o. ok o) (ground (arith, get-remove k k d, bytes_eq_iff k k));
  get-remove_other =
      λ k j d done apart. ap (λ o. ok o) (ground (arith, get-remove k j d, bytes_eq_iff k j));
}

-- A database that is empty, and one with a tip.
abbrev nothing : Key → Option (Entry ℕ)
nothing j = none

abbrev with_tip : Key → Option (Entry ℕ)
with_tip tip = some (the_tip (replicate 32 6))
with_tip j = none

Sets-tip : Sets (put_entry (the_tip (replicate 32 6))) nothing with_tip
Sets-tip = (refl, untouched)
  where
    untouched : (j : Key) → KeyFits j → tip ≢ j → with_tip j ≡ nothing j
    untouched tip fits apart = absurd (apart refl)
    untouched (block_at h) fits apart = refl
    untouched (header_at h) fits apart = refl
    untouched (undo_at h) fits apart = refl
    untouched (hash_at n) fits apart = refl
    untouched (utxo_at op) fits apart = refl
    untouched height fits apart = refl
    untouched timestamps fits apart = refl
    untouched fractional_difficulty fits apart = refl

Shows-nothing : Shows map_store toy_code [] nothing
unfolding get
Shows-nothing j fits = read_nothing map_store toy_code [] j refl

tip_written : (run map_store toy_code (put_entry (the_tip (replicate 32 6))) []).0 ≡ ok tt
unfolding run put put_tip insert_at or_db_error
tip_written = refl

run-Shows_example :
    Shows map_store toy_code
      (run map_store toy_code (put_entry (the_tip (replicate 32 6))) []).1
      with_tip
run-Shows_example =
    run-Shows map_store toy_code (put_entry (the_tip (replicate 32 6))) [] nothing with_tip is_store
      toy_code-IsFaithful (tt, refl) Sets-tip tip_written Shows-nothing

abbrev far : OutPoint
far = record { txid = replicate 32 1; vout = 258 }

abbrev two_heights : ℕ → Option Hash256
two_heights zero = some (replicate 32 6)
two_heights (suc zero) = some (replicate 32 7)
two_heights (suc (suc n)) = none

abbrev stored_chain : StorageReads ℕ ℕ (Unit {0})
stored_chain = record {
  has_chain_data = λ s. true;
  get_tip = λ s. ok (some (replicate 32 7));
  get_height = λ s. ok (some 1);
  get_timestamps = λ s. ok none;
  get_fractional_difficulty = λ s. ok none;
  get_hash_at_height = λ s h. ok (two_heights h);
  get_header = λ s hash. ok none;
  get_block = λ s hash. ok none;
  load_all_utxos = λ s. ok [];
}

abbrev loaded : Chain ℕ ℕ
loaded = record {
  headers = [];
  blocks = [];
  height_index = insert 1 (replicate 32 7) (insert 0 (replicate 32 6) []);
  cumulative_work = insert (replicate 32 7) 0 (insert (replicate 32 6) 0 []);
  children = [];
  utxo_set = [];
  undo_cache = [];
  tip = replicate 32 7;
  height = 1;
  recent_timestamps = 1000 ∷ [];
  fractional_difficulty = initial_difficulty;
  storage = some 5;
  batch_mode = false;
}

is_loaded : load_from_storage stored_chain toy_env 5 ≡ ok loaded
unfolding load_from_storage insert with_block with_header bytes_eq
is_loaded = refl

load_from_storage-index_example :
    (stored_chain.get_tip 5 ≡ ok (some loaded.tip))
    × (stored_chain.get_height 5 ≡ ok (some loaded.height))
    × ((h : ℕ)
        → h ≤ loaded.height
        → stored_chain.get_hash_at_height 5 h ≡ ok (get loaded.height_index h))
load_from_storage-index_example = load_from_storage-index stored_chain toy_env 5 loaded is_loaded
