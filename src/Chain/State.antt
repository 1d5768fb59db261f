-- ===== src/Chain/State.antt =====
-- core/chain.rs: the struct `Chain`, and what its methods take from outside.
use equiforge.Prelude.{ℕ, Bool, List, Option}
use equiforge.Prelude.Maps.{Map}
use equiforge.Types.{Hash256, BlockHeader, Block}
use equiforge.Types.Externals.{Externals}
use equiforge.Chain.Utxo.{UtxoSet, BlockUndo}
use equiforge.Chain.Difficulty.{Float}
use equiforge.Chain.Stored.{StorageOps}

-- The other packages, floating-point numbers `F`, storage of states `S`, and the timestamp of the
-- configured network's genesis block.
pub record Env (F S : Type 0) : Type 0 where
  pub ext : Externals
  pub float : Float F
  pub db : StorageOps F S
  pub genesis_timestamp : ℕ

pub record Chain (F S : Type 0) : Type 0 where
  pub headers : Map Hash256 BlockHeader
  pub blocks : Map Hash256 Block
  pub height_index : Map ℕ Hash256
  pub cumulative_work : Map Hash256 ℕ
  pub children : Map Hash256 (List Hash256)
  pub utxo_set : UtxoSet
  pub undo_cache : Map Hash256 BlockUndo
  pub tip : Hash256
  pub height : ℕ
  pub recent_timestamps : List ℕ
  pub fractional_difficulty : F
  pub storage : Option S
  pub batch_mode : Bool
