-- ===== src/Wallet/Coins/Laws.antt =====
-- What `select_utxos` gives: coins of the wallet that are there and ripe, and enough of them.
use equiforge.Prelude.{
  ℕ, ◌+◌, ◌≤◌, ◌<◌, ◌≡◌, ◌⊎◌, refl, arith, Bool-cases, true, false, List, [], ◌∷◌, All, leb,
  u64_mod, ◌+u64◌, Result-cases, is_ok, ok, inl, inr, is_empty,
}
use equiforge.Prelude.Maps.{HasOnce}
use equiforge.Prelude.Sort.{sort_by, sum_by, sum_by-sort_by, All-sort_by}
use equiforge.Types.{outpoint_instance}
use equiforge.Types.Externals.{Externals}
use equiforge.Chain.Utxo.{UtxoSet}
use equiforge.Chain.Validate.{is_immature}
use equiforge.Wallet.Keys.{Signer, Keypair, pubkey_hashes}
use equiforge.Wallet.Coins.{
  Coin, amount_of, amount_below, take_until, coins_of, mature_coins, select_utxos,
}
use equiforge.Wallet.Coins.Owned.{IsOwned, coins_of-IsOwned}

-- The sum of the amounts, with no bound.
abbrev pub sum_amounts : List Coin → ℕ
sum_amounts coins = sum_by amount_of coins

-- How a selection from one coin on came about.
take_until-cases :
    (needed total : ℕ) (coin : Coin) (coins selected : List Coin)
    → take_until needed total (coin ∷ coins) ≡ ok selected
    → ((selected ≡ coin ∷ []) × (needed ≤ total +u64 amount_of coin))
      ⊎ ((others : List Coin) × (selected ≡ coin ∷ others)
          × (take_until needed (total +u64 amount_of coin) coins ≡ ok others))
unfolding take_until
take_until-cases needed total coin coins selected e =
    let total' = total +u64 amount_of coin in
    elim (Bool-cases (leb needed total')) [
      | inl enough ↦ inl (ground arith, ground arith)
      | inr short ↦ elim (Result-cases (take_until needed total' coins)) [
        | inl (others, found) ↦ inr (others, ground arith, found)
        | inr (x, none_found) ↦ absurd (ground arith)
      ]
    ]

module _ (P : Coin → Type 0) where
  mature-All :
      (ext : Externals) (height : ℕ) (coins : List Coin)
      → All P coins
      → All
          (λ (c : Coin). P c × (is_immature ext c.1 height ≡ false))
          (mature_coins ext height coins)
  unfolding mature_coins
  mature-All ext height [] h = tt
  mature-All ext height (coin ∷ coins) h = elim (Bool-cases (is_immature ext coin.1 height)) [
    | inl young ↦ rw young (mature-All ext height coins h.1)
    | inr ripe ↦ rw ripe ((h.0, ripe), mature-All ext height coins h.1)
  ]

  take_until-All :
      (needed total : ℕ) (coins selected : List Coin)
      → All P coins
      → take_until needed total coins ≡ ok selected
      → All P selected
  unfolding take_until
  take_until-All needed total [] selected h e = absurd (cc)
  take_until-All needed total (coin ∷ coins) selected h e =
      elim (take_until-cases needed total coin coins selected e) [
        | inl (last, _) ↦ rw last (h.0, tt)
        | inr (others, more, found) ↦
            rw more (h.0, take_until-All needed (total +u64 amount_of coin) coins others h.1 found)
      ]

take_until_bounds :
    (needed total : ℕ) (coins selected : List Coin)
    → total + sum_amounts coins < u64_mod
    → take_until needed total coins ≡ ok selected
    → (needed ≤ total + sum_amounts selected)
      × (sum_amounts selected ≤ sum_amounts coins)
      × (is_empty selected ≡ false)
unfolding take_until
take_until_bounds needed total [] selected fits e = absurd (cc)
take_until_bounds needed total (coin ∷ coins) selected fits e =
    elim (take_until-cases needed total coin coins selected e) [
      | inl (last, enough) ↦ rw last (omega arith, omega arith, refl)
      | inr (others, more, found) ↦
          let (enough, fewer, _) =
            take_until_bounds needed (total +u64 amount_of coin) coins others (omega arith) found in
          rw more (omega arith, omega arith, refl)
    ]

take_until_enough :
    (needed total : ℕ) (coins : List Coin)
    → total < needed
    → total + sum_amounts coins < u64_mod
    → needed ≤ total + sum_amounts coins
    → is_ok (take_until needed total coins) ≡ true
unfolding take_until
take_until_enough needed total [] short fits h = absurd (omega arith)
take_until_enough needed total (coin ∷ coins) short fits h =
    let total' = total +u64 amount_of coin in
    elim (Bool-cases (leb needed total')) [
      | inl enough ↦ ground arith
      | inr more ↦
          let found =
            take_until_enough needed total' coins (ground arith) (omega arith) (omega arith) in
          ground arith
    ]

mature-sum :
    (ext : Externals) (height : ℕ) (coins : List Coin)
    → sum_amounts (mature_coins ext height coins) ≤ sum_amounts coins
unfolding mature_coins
mature-sum ext height [] = omega arith
mature-sum ext height (coin ∷ coins) = ground (arith, mature-sum ext height coins)

module _ (ext : Externals) (signer : Signer) (keypairs : List Keypair) (set : UtxoSet) where
  -- All outputs that the wallet's keys own, together, ripe or not.
  abbrev pub holdings : ℕ
  holdings = sum_amounts (coins_of set (pubkey_hashes ext signer keypairs))

  -- Those of them that are ripe.
  abbrev pub ripe_holdings : ℕ → ℕ
  ripe_holdings height =
      sum_amounts (mature_coins ext height (coins_of set (pubkey_hashes ext signer keypairs)))

  -- What is selected is in the UTXO set, owned by a key of the wallet and ripe, and comes to what
  -- is needed, if the UTXO set has every outpoint once and the outputs of the wallet are together
  -- below 2^64.
  pub select_utxos_sound :
      (amount fee height : ℕ) (selected : List Coin)
      → HasOnce set
      → holdings < u64_mod
      → select_utxos ext signer keypairs set amount fee height ≡ ok selected
      → All
          (λ (c : Coin). IsOwned set ext signer keypairs c × (is_immature ext c.1 height ≡ false))
          selected
        × (amount +u64 fee ≤ sum_amounts selected)
        × (sum_amounts selected < u64_mod)
        × (is_empty selected ≡ false)
  unfolding select_utxos
  select_utxos_sound amount fee height selected once fits e =
      let coins = coins_of set (pubkey_hashes ext signer keypairs) in
      let mature = mature_coins ext height coins in
      let P : Coin → Type 0 =
        λ c. IsOwned set ext signer keypairs c × (is_immature ext c.1 height ≡ false) in
      let needed = amount +u64 fee in
      let found : take_until needed 0 (sort_by amount_below mature) ≡ ok selected = ground arith in
      let all : All P mature =
        mature-All (IsOwned set ext signer keypairs) ext height coins
          (coins_of-IsOwned set ext signer keypairs once) in
      let sorted = All-sort_by amount_below P mature all in
      let same = sum_by-sort_by amount_below amount_of mature in
      let less = mature-sum ext height coins in
      let (enough, fewer, some_coin) =
        take_until_bounds needed 0 (sort_by amount_below mature) selected (omega arith) found in
      (
        take_until-All P needed 0 (sort_by amount_below mature) selected sorted found,
        omega arith,
        omega arith,
        some_coin,
      )

  -- The selection fails only where the ripe outputs do not come to what is needed, if this is not
  -- nothing and the outputs of the wallet are together below 2^64.
  pub select_utxos_enough :
      (amount fee height : ℕ)
      → holdings < u64_mod
      → 0 < amount +u64 fee
      → amount +u64 fee ≤ ripe_holdings height
      → is_ok (select_utxos ext signer keypairs set amount fee height) ≡ true
  unfolding select_utxos
  select_utxos_enough amount fee height fits positive enough =
      let coins = coins_of set (pubkey_hashes ext signer keypairs) in
      let mature = mature_coins ext height coins in
      let same = sum_by-sort_by amount_below amount_of mature in
      let less = mature-sum ext height coins in
      let found =
        take_until_enough (amount +u64 fee) 0 (sort_by amount_below mature) positive (omega arith)
          (omega arith) in
      ground arith
