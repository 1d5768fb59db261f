-- ===== src/Chain/BlockRules.antt =====
-- core/chain.rs: the rules on a block's transactions, which `add_block` checks for a block on the
-- tip and `reorg_to` for each block that it connects.
pub mod Laws
use equiforge.Prelude.{
  ℕ, Bool, List, [], ◌∷◌, ltb, rest, ◌+u64◌, Result, ok, err, ◌>>=◌, ◌>>◌, fail_if,
}
use equiforge.Params.Rewards.{block_reward}
use equiforge.Types.{Transaction, Block}
use equiforge.Types.Externals.{Externals}
use equiforge.Types.Coinbase.{total_output}
use equiforge.Chain.Utxo.{UtxoSet}
use equiforge.Chain.Errors.{BlockError, invalid_coinbase_amount}
use equiforge.Chain.Validate.{calculate_block_fees, validate_transaction}

-- `block.transactions[0].total_output()`, of a block that has transactions.
unfoldable pub coinbase_output : List Transaction → ℕ
coinbase_output [] = 0
coinbase_output (tx ∷ _) = total_output tx

module _ (ext : Externals) where
  -- Each transaction is validated against the same set.
  unfoldable pub validate_all : UtxoSet → ℕ → List Transaction → Result BlockError (Unit {0})
  validate_all set height [] = ok tt
  validate_all set height (tx ∷ txs) = do
    validate_transaction ext set tx height
    validate_all set height txs

  unfoldable pub validate_block_transactions : UtxoSet → Block → Result BlockError (Unit {0})
  unfolding validate_all coinbase_output
  validate_block_transactions set block = do
    let expected_reward = block_reward block.header.height
    total_fees ← calculate_block_fees set block
    fail_if (ltb (expected_reward +u64 total_fees) (coinbase_output block.transactions))
        invalid_coinbase_amount
    validate_all set block.header.height (rest block.transactions)
