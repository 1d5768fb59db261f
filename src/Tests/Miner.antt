-- ===== src/Tests/Miner.antt =====
-- The template over the genesis block, with one pending payment.
use equiforge.Prelude.{
  ◌≡◌, refl, arith, [], ◌∷◌, some, replicate, bytes_eq, le_bytes, bytes_instance,
}
use equiforge.Prelude.Maps.{get, insert}
use equiforge.Types.{Block}
use equiforge.Types.Externals.{header_hash}
use equiforge.Chain.Genesis.{new, create_genesis_block}
use equiforge.Miner.{
  MinerConfig, IsTemplate, create_block_template, create_block_template-IsTemplate,
}
use equiforge.Tests.Toy.{toy_env}
use equiforge.Tests.Utxos.{payment}
use equiforge.Tests.Blocks.{at_start}

abbrev config : MinerConfig
config = record {
  miner_pubkey_hash = replicate 32 1;
  community_fund_hash = replicate 32 0xCF;
  threads = 1;
  miner_tag = [];
}

tip_found : get at_start.headers at_start.tip ≡ some (create_genesis_block toy_env).header
unfolding get insert new create_genesis_block header_hash le_bytes bytes_eq
tip_found = refl

create_block_template-IsTemplate_example :
    (block : Block) × (create_block_template toy_env 2000 at_start (payment ∷ []) config
      ≡ some block)
    × IsTemplate toy_env at_start (create_genesis_block toy_env).header block
unfolding create_genesis_block
create_block_template-IsTemplate_example =
    create_block_template-IsTemplate toy_env 2000 at_start (payment ∷ []) config
      (create_genesis_block toy_env).header tip_found (omega arith)
