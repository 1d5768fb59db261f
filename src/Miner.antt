-- ===== src/Miner.antt =====
-- miner/mod.rs: `create_block_template`.
pub mod Search
use equiforge.Prelude.{
  ℕ, ◌+◌, ◌-◌, ◌≤◌, ◌<◌, ◌≡◌, refl, arith, true, List, [], ◌∷◌, Option, none, some, ltb, leb,
  if◌then◌else◌, length, Bytes, ◌+u64◌, u64_mod, ok, err, bytes_eq_refl, bytes_instance,
  Option-cases, inl, inr,
}
use equiforge.Prelude.Maps.{get}
use equiforge.Params.Rewards.{block_reward, max_block_size, max_txs_per_block, protocol_version}
use equiforge.Types.{Hash256, null_hash, BlockHeader, Block, Transaction}
use equiforge.Types.Externals.{Externals, tx_size}
use equiforge.Types.Coinbase.{new_coinbase, is_coinbase, total_output, is_coinbase-new_coinbase}
use equiforge.Types.Merkle.{compute_merkle_root, validate_merkle_root}
use equiforge.Chain.Utxo.{UtxoSet}
use equiforge.Chain.Validate.{fee_inputs}
use equiforge.Chain.State.{Env, Chain}
use equiforge.Chain.Accept.{next_difficulty, begins_with_coinbase}

pub record MinerConfig : Type 0 where
  pub miner_pubkey_hash : Hash256
  pub community_fund_hash : Hash256
  pub threads : ℕ
  pub miner_tag : Bytes

-- The fee of a transaction whose inputs are all known and cover its outputs.
unfoldable pub template_fee : UtxoSet → Transaction → Option ℕ
template_fee set tx = elim (fee_inputs set 0 tx.inputs) [
  | err _ ↦ none
  | ok input_sum ↦
      if ltb input_sum (total_output tx) then none else some (input_sum - total_output tx)
]

module _ (ext : Externals) where
  -- The loop over the pending transactions, with `n` taken so far: those that are taken, and the
  -- fees.
  unfoldable pub select_txs : UtxoSet → ℕ → ℕ → ℕ → List Transaction → List Transaction × ℕ
  select_txs set n block_size total_fees [] = ([], total_fees)
  select_txs set n block_size total_fees (tx ∷ txs) =
      let skipped = select_txs set n block_size total_fees txs in
      if is_coinbase tx
      then skipped
      else if ltb max_block_size (block_size + tx_size ext tx)
      then ([], total_fees)
      else if leb max_txs_per_block (n + 1)
      then ([], total_fees)
      else elim (template_fee set tx) [
        | none ↦ skipped
        | some fee ↦
            let (taken, fees) =
              select_txs set (n + 1) (block_size + tx_size ext tx) (total_fees +u64 fee) txs in
            (tx ∷ taken, fees)
      ]

  length-select_txs :
      (set : UtxoSet) (n block_size total_fees : ℕ) (txs : List Transaction)
      → n + 1 ≤ max_txs_per_block
      → n + length (select_txs set n block_size total_fees txs).0 + 1 ≤ max_txs_per_block
  unfolding select_txs
  length-select_txs set n block_size total_fees [] h = omega arith
  length-select_txs set n block_size total_fees (tx ∷ txs) h =
      elim (Option-cases (template_fee set tx)) [
        | inl unknown ↦ ground (arith, length-select_txs set n block_size total_fees txs h)
        | inr (fee, known) ↦ ground (
          arith,
          length-select_txs set n block_size total_fees txs h,
          length-select_txs set (n + 1) (block_size + tx_size ext tx) (total_fees +u64 fee) txs,
        )
      ]

module _ {F S : Type 0} (env : Env F S) where
  open env use {ext}

  -- The template over the tip's header.
  unfoldable pub template_on : ℕ → Chain F S → List Transaction → MinerConfig → BlockHeader → Block
  template_on now chain pending_txs config tip_header =
      let height = chain.height +u64 1 in
      let (valid_txs, total_fees) = select_txs ext chain.utxo_set 0 0 0 pending_txs in
      let coinbase =
        new_coinbase height (block_reward height +u64 total_fees) config.miner_pubkey_hash
          config.community_fund_hash config.miner_tag in
      let unrooted : BlockHeader = record {
        version = protocol_version;
        prev_hash = chain.tip;
        merkle_root = null_hash;
        timestamp = if ltb tip_header.timestamp now then now else (tip_header.timestamp +u64 1);
        difficulty_target = next_difficulty env chain;
        nonce = 0;
        height = height;
      } in
      let block : Block = record { header = unrooted; transactions = coinbase ∷ valid_txs } in
      record block { header = record unrooted { merkle_root = compute_merkle_root ext block } }

  -- `none` is the panic of `tip_header` where the tip has no header.
  unfoldable pub create_block_template :
      ℕ → Chain F S → List Transaction → MinerConfig → Option Block
  create_block_template now chain pending_txs config = elim (get chain.headers chain.tip) [
    | none ↦ none
    | some tip_header ↦ some (template_on now chain pending_txs config tip_header)
  ]

  template_made :
      (now : ℕ) (chain : Chain F S) (pending_txs : List Transaction) (config : MinerConfig)
      (tip_header : BlockHeader)
      → get chain.headers chain.tip ≡ some tip_header
      → create_block_template now chain pending_txs config
        ≡ some (template_on now chain pending_txs config tip_header)
  unfolding create_block_template
  template_made now chain pending_txs config tip_header found = ground arith

  -- What a template has that `add_block` asks for, all but the proof of work.
  pub record IsTemplate (chain : Chain F S) (tip_header : BlockHeader) (block : Block)
      : Type 0 where
    pub on_tip : block.header.prev_hash ≡ chain.tip
    pub height : block.header.height ≡ chain.height +u64 1
    pub later : tip_header.timestamp < block.header.timestamp
    pub difficulty : block.header.difficulty_target ≡ next_difficulty env chain
    pub root : validate_merkle_root ext block ≡ true
    pub coinbase : begins_with_coinbase block.transactions ≡ true
    pub few : length block.transactions ≤ max_txs_per_block

  -- A template is made for every tip with a header: it stands on the tip, one higher and later, with
  -- the difficulty that is expected of it, its Merkle root, a coinbase first, and no more
  -- transactions than a block may have.
  pub create_block_template-IsTemplate :
      (now : ℕ) (chain : Chain F S) (pending_txs : List Transaction) (config : MinerConfig)
      (tip_header : BlockHeader)
      → get chain.headers chain.tip ≡ some tip_header
      → tip_header.timestamp + 1 < u64_mod
      → (block : Block) × (create_block_template now chain pending_txs config ≡ some block)
        × IsTemplate chain tip_header block
  unfolding template_on validate_merkle_root compute_merkle_root begins_with_coinbase
  create_block_template-IsTemplate now chain pending_txs config tip_header found fits =
      let height = chain.height +u64 1 in
      let chosen = select_txs ext chain.utxo_set 0 0 0 pending_txs in
      (
        template_on now chain pending_txs config tip_header,
        template_made now chain pending_txs config tip_header found,
        record {
          on_tip = refl;
          height = refl;
          later = ground arith;
          difficulty = refl;
          root = bytes_eq_refl _;
          coinbase =
              is_coinbase-new_coinbase height (block_reward height +u64 chosen.1)
                config.miner_pubkey_hash config.community_fund_hash config.miner_tag;
          few = omega (arith, length-select_txs ext chain.utxo_set 0 0 0 pending_txs (omega arith));
        },
      )
