-- ===== src/Chain/Genesis.antt =====
-- core/chain.rs: the genesis block, `Chain::new` and `reset`.
use equiforge.Prelude.{false, [], ◌∷◌, Option, none, some, replicate}
use equiforge.Prelude.{bytes_instance, ℕ_eq}
use equiforge.Prelude.Maps.{Map, insert}
use equiforge.Params.Rewards.{block_reward, initial_difficulty}
use equiforge.Types.{Hash256, null_hash, BlockHeader, Block}
use equiforge.Types.Externals.{header_hash}
use equiforge.Types.Coinbase.{new_coinbase}
use equiforge.Types.Merkle.{compute_merkle_root}
use equiforge.Chain.Utxo
use equiforge.Chain.Difficulty.{block_work}
use equiforge.Chain.Connect.{connect_block_utxos}
use equiforge.Chain.State.{Env, Chain}
use equiforge.Chain.Persist.{persist_genesis}

abbrev pub community_fund : Hash256
community_fund = replicate 32 0xCF

module _ {F S : Type 0} (env : Env F S) where
  open env use {ext, float, db, genesis_timestamp}

  unfoldable pub create_genesis_block : Block
  create_genesis_block =
      let coinbase = new_coinbase 0 (block_reward 0) (replicate 32 0) community_fund [] in
      let unrooted : BlockHeader = record {
        version = 3;
        prev_hash = null_hash;
        merkle_root = null_hash;
        timestamp = genesis_timestamp;
        difficulty_target = initial_difficulty;
        nonce = 0;
        height = 0;
      } in
      let tmp : Block = record { header = unrooted; transactions = coinbase ∷ [] } in
      record {
        header = record unrooted { merkle_root = compute_merkle_root ext tmp };
        transactions = coinbase ∷ [];
      }

  abbrev pub genesis_hash : Hash256
  genesis_hash = header_hash ext create_genesis_block.header

  -- What `new` and `reset` fill the maps with, over an undo cache that `reset` does not clear.
  abbrev pub at_genesis : Map Hash256 Utxo.BlockUndo → Option S → Chain F S
  at_genesis undo_cache storage =
      let genesis = create_genesis_block in
      let (set, undo) = connect_block_utxos ext Utxo.empty genesis in
      record {
        headers = insert genesis_hash genesis.header [];
        blocks = insert genesis_hash genesis [];
        height_index = insert 0 genesis_hash [];
        cumulative_work = insert genesis_hash (block_work genesis.header.difficulty_target) [];
        children = [];
        utxo_set = set;
        undo_cache = insert genesis_hash undo undo_cache;
        tip = genesis_hash;
        height = 0;
        recent_timestamps = genesis.header.timestamp ∷ [];
        fractional_difficulty = float.of_ℕ initial_difficulty;
        storage = storage;
        batch_mode = false;
      }

  -- `Chain::new`
  unfoldable pub new : Chain F S
  new = at_genesis [] none

  unfoldable pub reset : Chain F S → Chain F S
  unfolding persist_genesis
  reset c =
      let fresh = at_genesis c.undo_cache none in
      elim c.storage [
        | none ↦ fresh
        | some s ↦ record fresh {
          storage = some (persist_genesis env create_genesis_block fresh (db.clear_all s));
        }
      ]
