-- ===== src/Wallet/Coins/Owned.antt =====
-- wallet/mod.rs: the coins that the wallet finds in the UTXO set are there, and its own.
use equiforge.Prelude.{
  ◌≡◌, refl, arith, Bool-cases, List, [], ◌∷◌, some, bytes_eq, bytes_eq_iff, All, All-append,
  bytes_eq_refl, inl, inr,
}
use equiforge.Prelude.Maps.{get, HasOnce}
use equiforge.Types.{Hash256, OutPoint, outpoint_instance, outpoint_eq_iff}
use equiforge.Types.Externals.{Externals}
use equiforge.Chain.Utxo.{UtxoEntry, UtxoSet, utxos_for}
use equiforge.Wallet.Keys.{Signer, Keypair, pubkey_hash_of, keypair_for_hash, pubkey_hashes}
use equiforge.Wallet.Coins.{Coin, coins_of}

module _ (set : UtxoSet) where
  -- The coin is in the set, and pays to the hash.
  abbrev pub PaysTo : Hash256 → Coin → Type 0
  PaysTo hash coin = (get set coin.0 ≡ some coin.1) × (coin.1.output.pubkey_hash ≡ hash)

  utxos_for-found :
      (hash : Hash256) (more : UtxoSet)
      → ((op : OutPoint) (e : UtxoEntry) → get more op ≡ some e → get set op ≡ some e)
      → HasOnce more
      → All (PaysTo hash) (utxos_for more hash)
  unfolding utxos_for get
  utxos_for-found hash [] known once = tt
  utxos_for-found hash ((op, e) ∷ more) known once =
      let others : All (PaysTo hash) (utxos_for more hash) =
        utxos_for-found hash more (λ o f found. known o f (ground (arith, outpoint_eq_iff op o)))
          once.1 in
      elim (Bool-cases (bytes_eq e.output.pubkey_hash hash)) [
        | inl same ↦ rw same (
          (
            known op e (ground (arith, outpoint_eq_iff op op)),
            (bytes_eq_iff e.output.pubkey_hash hash).0 same,
          ),
          others,
        )
        | inr apart ↦ rw apart others
      ]

  module _ (ext : Externals) (signer : Signer) where
    -- The coin is in the set, and one of the key pairs has its hash.
    abbrev pub IsOwned : List Keypair → Coin → Type 0
    IsOwned keypairs coin =
        (get set coin.0 ≡ some coin.1)
        × ((kp : Keypair) × (keypair_for_hash ext signer keypairs coin.1.output.pubkey_hash
              ≡ some kp))

    IsOwned-first :
        (kp : Keypair) (keypairs : List Keypair) (coins : List Coin)
        → All (PaysTo (pubkey_hash_of ext signer kp)) coins
        → All (IsOwned (kp ∷ keypairs)) coins
    unfolding keypair_for_hash
    IsOwned-first kp keypairs [] h = tt
    IsOwned-first kp keypairs (coin ∷ coins) h = (
      (h.0.0, (kp, rw (h.0.1, bytes_eq_refl (pubkey_hash_of ext signer kp)) refl)),
      IsOwned-first kp keypairs coins h.1,
    )

    IsOwned-later :
        (kp : Keypair) (keypairs : List Keypair) (coins : List Coin)
        → All (IsOwned keypairs) coins
        → All (IsOwned (kp ∷ keypairs)) coins
    unfolding keypair_for_hash
    IsOwned-later kp keypairs [] h = tt
    IsOwned-later kp keypairs (coin ∷ coins) h =
        let hash = coin.1.output.pubkey_hash in
        (
          (
            h.0.0,
            elim (Bool-cases (bytes_eq (pubkey_hash_of ext signer kp) hash)) [
              | inl same ↦ (kp, rw same refl)
              | inr apart ↦ (h.0.1.0, rw apart h.0.1.1)
            ],
          ),
          IsOwned-later kp keypairs coins h.1,
        )

    pub coins_of-IsOwned :
        (keypairs : List Keypair)
        → HasOnce set
        → All (IsOwned keypairs) (coins_of set (pubkey_hashes ext signer keypairs))
    unfolding coins_of pubkey_hashes
    coins_of-IsOwned [] once = tt
    coins_of-IsOwned (kp ∷ keypairs) once =
        let hash = pubkey_hash_of ext signer kp in
        let first = utxos_for-found hash set (λ o e found. found) once in
        All-append (IsOwned (kp ∷ keypairs)) (utxos_for set hash)
          (coins_of set (pubkey_hashes ext signer keypairs))
          (IsOwned-first kp keypairs (utxos_for set hash) first)
          (IsOwned-later kp keypairs (coins_of set (pubkey_hashes ext signer keypairs))
            (coins_of-IsOwned keypairs once))
