-- ===== src/Wallet/Coins.antt =====
-- wallet/mod.rs: `select_utxos` and `balance`.
pub mod Owned
pub mod Laws
use equiforge.Prelude.{
  ℕ, ◌+◌, Bool, List, [], ◌∷◌, ◌++◌, ltb, leb, if◌then◌else◌, ◌+u64◌, Result, ok, err,
}
use equiforge.Prelude.Sort.{sort_by}
use equiforge.Types.{Hash256, OutPoint}
use equiforge.Types.Externals.{Externals}
use equiforge.Chain.Utxo.{UtxoEntry, UtxoSet, balance_of, utxos_for}
use equiforge.Chain.Validate.{is_immature}
use equiforge.Wallet.Keys.{Signer, Keypair, pubkey_hashes}

abbrev pub Coin : Type 0
Coin = OutPoint × UtxoEntry

abbrev pub amount_of : Coin → ℕ
amount_of coin = coin.1.output.amount

-- The texts of the errors, with the numbers that they show.
pub data Shortfall : Type 0 where
  -- what is spendable, what is immature, what is needed
  insufficient_mature : ℕ → ℕ → ℕ → Shortfall
  -- what is spendable, what is needed, the amount and the fee
  insufficient : ℕ → ℕ → ℕ → ℕ → Shortfall

-- `b.1.output.amount.cmp(&a.1.output.amount)`: the smaller amount stands behind.
abbrev pub amount_below : Coin → Coin → Bool
amount_below a b = ltb (amount_of a) (amount_of b)

-- The last loop, from a total on: what is selected, or the total that it comes to.
unfoldable pub take_until : ℕ → ℕ → List Coin → Result ℕ (List Coin)
take_until needed total [] = err total
take_until needed total (coin ∷ coins) =
    let total' = total +u64 amount_of coin in
    let further = take_until needed total' coins in
    if leb needed total'
    then ok (coin ∷ [])
    else elim further [ ok selected ↦ ok (coin ∷ selected) | err e ↦ err e ]

-- The outputs that the nested loops run over.
unfoldable pub coins_of : UtxoSet → List Hash256 → List Coin
coins_of set [] = []
coins_of set (hash ∷ hashes) = utxos_for set hash ++ coins_of set hashes

module _ (ext : Externals) where
  -- What the nested loops push to `our_utxos`.
  unfoldable pub mature_coins : ℕ → List Coin → List Coin
  mature_coins current_height [] = []
  mature_coins current_height (coin ∷ coins) =
      let others = mature_coins current_height coins in
      if is_immature ext coin.1 current_height then others else coin ∷ others

  -- What they add to `immature_amount`.
  unfoldable pub add_immature : ℕ → ℕ → List Coin → ℕ
  add_immature current_height immature_amount [] = immature_amount
  add_immature current_height immature_amount (coin ∷ coins) =
      add_immature current_height
        (if is_immature ext coin.1 current_height
          then immature_amount +u64 amount_of coin
          else immature_amount)
        coins

  module _ (signer : Signer) where
    unfoldable pub select_utxos : List Keypair → UtxoSet → ℕ → ℕ → ℕ → Result Shortfall (List Coin)
    select_utxos keypairs set target_amount fee current_height =
        let needed = target_amount +u64 fee in
        let coins = coins_of set (pubkey_hashes ext signer keypairs) in
        let our_utxos = sort_by amount_below (mature_coins current_height coins) in
        let immature_amount = add_immature current_height 0 coins in
        elim (take_until needed 0 our_utxos) [
          | ok selected ↦ ok selected
          | err total ↦
              if ltb 0 immature_amount
              then err (insufficient_mature total immature_amount needed)
              else err (insufficient total needed target_amount fee)
        ]

    unfoldable pub sum_balances : UtxoSet → List Hash256 → ℕ
    sum_balances set [] = 0
    sum_balances set (hash ∷ hashes) = balance_of set hash +u64 sum_balances set hashes

    unfoldable pub balance : List Keypair → UtxoSet → ℕ
    balance keypairs set = sum_balances set (pubkey_hashes ext signer keypairs)
