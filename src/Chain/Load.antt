-- ===== src/Chain/Load.antt =====
-- core/chain.rs: `open` and `load_from_storage`.
pub mod Laws
use equiforge.Prelude.{
  ℕ, zero, suc, ◌+◌, ◌%◌, ◌^◌, Bool, false, List, [], ◌∷◌, ◌++◌, Option, none, some, if◌then◌else◌,
  Result, ok, err, ◌>>=◌, bytes_instance, ℕ_eq,
}
use equiforge.Prelude.Maps.{Map, get, insert}
use equiforge.Params.Rewards.{initial_difficulty}
use equiforge.Types.{Hash256, OutPoint, BlockHeader, Block, outpoint_instance}
use equiforge.Chain.Utxo.{UtxoEntry, UtxoSet, empty, add}
use equiforge.Chain.Difficulty.{block_work}
use equiforge.Chain.State.{Env, Chain}
use equiforge.Chain.Genesis.{create_genesis_block, new}
use equiforge.Chain.Persist.{persist_genesis}

-- The readers of `Storage` that are called here, with errors `E`.
pub record StorageReads (F S E : Type 0) : Type 0 where
  pub has_chain_data : S → Bool
  pub get_tip : S → Result E (Option Hash256)
  pub get_height : S → Result E (Option ℕ)
  pub get_timestamps : S → Result E (Option (List ℕ))
  pub get_fractional_difficulty : S → Result E (Option F)
  pub get_hash_at_height : S → ℕ → Result E (Option Hash256)
  pub get_header : S → Hash256 → Result E (Option BlockHeader)
  pub get_block : S → Hash256 → Result E (Option Block)
  pub load_all_utxos : S → Result E (List (OutPoint × UtxoEntry))

-- The texts of the errors.
pub data LoadError (E : Type 0) : Type 0 where
  storage_error : E → LoadError E
  no_tip no_height : LoadError E

-- The variables of the loop over the heights.
pub record Loaded : Type 0 where
  pub headers : Map Hash256 BlockHeader
  pub height_index : Map ℕ Hash256
  pub blocks : Map Hash256 Block
  pub cumulative_work : Map Hash256 ℕ
  pub children : Map Hash256 (List Hash256)
  pub cum_work : ℕ

abbrev pub nothing_loaded : Loaded
nothing_loaded = record {
  headers = [];
  height_index = [];
  blocks = [];
  cumulative_work = [];
  children = [];
  cum_work = 0;
}

-- `unwrap_or`
abbrev pub or_else : {A : Type 0} → Option A → A → A
or_else none a = a
or_else (some b) a = b

-- `children.entry(parent).or_default().push(hash)`
unfoldable pub push_child :
    Hash256 → Hash256 → Map Hash256 (List Hash256) → Map Hash256 (List Hash256)
push_child parent hash children =
    let siblings = or_else (get children parent) [] in
    insert parent (siblings ++ hash ∷ []) children

-- `cum_work` is a `u128`, and wraps.
unfoldable pub with_header : Hash256 → Option BlockHeader → Loaded → Loaded
unfolding push_child
with_header hash none st = st
with_header hash (some header) st = record st {
  cum_work = (st.cum_work + block_work header.difficulty_target) % 2 ^ 128;
  children = push_child header.prev_hash hash st.children;
  headers = insert hash header st.headers;
}

unfoldable pub with_block : Hash256 → Option Block → Loaded → Loaded
with_block hash none st = st
with_block hash (some block) st = record st { blocks = insert hash block st.blocks }

unfoldable pub add_all : List (OutPoint × UtxoEntry) → UtxoSet → UtxoSet
add_all [] set = set
add_all ((outpoint, entry) ∷ utxos) set = add_all utxos (add outpoint entry set)

unfoldable pub or_storage_error : {A E : Type 0} → Result E A → Result (LoadError E) A
or_storage_error (ok a) = ok a
or_storage_error (err e) = err (storage_error e)

-- `ok_or`
unfoldable pub some_or : {A E : Type 0} → Option A → LoadError E → Result (LoadError E) A
some_or none e = err e
some_or (some a) e = ok a

module _ {F S E : Type 0} (reads : StorageReads F S E) where
  -- The body of the loop, for the hash at the height.
  unfoldable pub load_at : S → ℕ → Option Hash256 → Loaded → Result (LoadError E) Loaded
  unfolding or_storage_error
  load_at s h none st = ok st
  load_at s h (some hash) st = do
    header ← or_storage_error (reads.get_header s hash)
    block ← or_storage_error (reads.get_block s hash)
    let st' = with_block hash block (with_header hash header st)
    ok (record st' {
      cumulative_work = insert hash st'.cum_work st'.cumulative_work;
      height_index = insert h hash st'.height_index;
    })

  -- The loop, from a height on, with as many heights left.
  unfoldable pub load_heights : S → ℕ → ℕ → Loaded → Result (LoadError E) Loaded
  unfolding load_at or_storage_error
  load_heights s zero h st = ok st
  load_heights s (suc left) h st = do
    hash ← or_storage_error (reads.get_hash_at_height s h)
    st' ← load_at s h hash st
    load_heights s left (suc h) st'

  module _ (env : Env F S) where
    open env use {float, genesis_timestamp}

    unfoldable pub load_from_storage : S → Result (LoadError E) (Chain F S)
    unfolding or_storage_error some_or load_heights add_all
    load_from_storage s = do
      found_tip ← or_storage_error (reads.get_tip s)
      tip ← some_or found_tip no_tip
      found_height ← or_storage_error (reads.get_height s)
      height ← some_or found_height no_height
      timestamps ← or_storage_error (reads.get_timestamps s)
      frac ← or_storage_error (reads.get_fractional_difficulty s)
      st ← load_heights s (height + 1) 0 nothing_loaded
      utxos ← or_storage_error (reads.load_all_utxos s)
      ok (record {
        headers = st.headers;
        blocks = st.blocks;
        height_index = st.height_index;
        cumulative_work = st.cumulative_work;
        children = st.children;
        utxo_set = add_all utxos empty;
        undo_cache = [];
        tip = tip;
        height = height;
        recent_timestamps = or_else timestamps (genesis_timestamp ∷ []);
        fractional_difficulty = or_else frac (float.of_ℕ initial_difficulty);
        storage = some s;
        batch_mode = false;
      })

    -- `open`, on the storage that `Storage::open` gives.
    unfoldable pub open_chain : S → Result (LoadError E) (Chain F S)
    open_chain s =
        let fresh = new env in
        if reads.has_chain_data s
        then load_from_storage s
        else ok (record fresh {
          storage = some (persist_genesis env (create_genesis_block env) fresh s);
        })
