-- ===== src/Network/Mempool/Laws.antt =====
-- The mempool keeps to its size, takes what the chain accepts, and drops what a block makes
-- impossible.
use equiforge.Prelude.{
  ℕ, ◌≤◌, ◌≡◌, refl, arith, Bool, true, false, List, [], ◌∷◌, some, length, map, ok, Result-cases,
  inl, inr, Bool-cases, bytes_instance,
}
use equiforge.Prelude.Sort.{sort_by, IsSorted, sort_by-IsSorted, tally, tally-sort_by}
use equiforge.Prelude.Maps.{Map, get, insert, remove, contains_key, get-insert_self}
use equiforge.Types.{Hash256, OutPoint, Transaction, Block}
use equiforge.Types.Externals.{tx_size, tx_hash}
use equiforge.Types.Coinbase.{is_coinbase}
use equiforge.Crypto.Hashes.{txid_v1}
use equiforge.Chain.State.{Env, Chain}
use equiforge.Chain.Headers.{validate_transaction_for_mempool}
use equiforge.Network.Mempool.{
  MempoolEntry, Mempool, spent_outpoints, spends_any, keep_unspent, fee_rate_of, fee_of,
  add_with_fee, validate_and_add, remove_hashes, remove_confirmed, rate_below, get_pending, values,
  tx_of_entry,
}

length-remove : {V : Type 0} (k : Hash256) (m : Map Hash256 V) → length (remove k m) ≤ length m
unfolding remove
length-remove k [] = omega arith
length-remove k ((j, v) ∷ m) = ground (arith, length-remove k m)

length-keep_unspent :
    {F : Type 0} (ops : List OutPoint) (m : Map Hash256 (MempoolEntry F))
    → length (keep_unspent ops m) ≤ length m
unfolding keep_unspent
length-keep_unspent ops [] = omega arith
length-keep_unspent ops ((id, entry) ∷ m) = ground (arith, length-keep_unspent ops m)

-- No entry spends one of the outpoints.
abbrev pub SpendNone : {F : Type 0} → List OutPoint → Map Hash256 (MempoolEntry F) → Type 0
SpendNone ops [] = Unit
SpendNone ops ((_, entry) ∷ m) = (spends_any ops entry.tx.inputs ≡ false) × SpendNone ops m

keep_unspent-SpendNone :
    {F : Type 0} (ops : List OutPoint) (m : Map Hash256 (MempoolEntry F))
    → SpendNone ops (keep_unspent ops m)
unfolding keep_unspent
keep_unspent-SpendNone ops [] = tt
keep_unspent-SpendNone ops ((id, entry) ∷ m) = elim (Bool-cases (spends_any ops entry.tx.inputs)) [
  | inl conflict ↦ rw conflict (keep_unspent-SpendNone ops m)
  | inr free ↦ rw free (free, keep_unspent-SpendNone ops m)
]

module _ {F S : Type 0} (env : Env F S) where
  -- The pool holds no more transactions than it may.
  abbrev pub IsBounded : Mempool F → Type 0
  IsBounded pool = length pool.entries ≤ pool.max_size

  add_with_fee-IsBounded :
      (tx : Transaction) (fee : ℕ) (pool : Mempool F)
      → IsBounded pool
      → IsBounded (add_with_fee env tx fee pool).1
  unfolding add_with_fee insert
  add_with_fee-IsBounded tx fee pool h =
      ground (arith, length-remove (txid_v1 env.ext tx) pool.entries)

  validate_and_add-IsBounded :
      (chain : Chain F S) (tx : Transaction) (pool : Mempool F)
      → IsBounded pool
      → IsBounded (validate_and_add env chain tx pool).1
  unfolding validate_and_add
  validate_and_add-IsBounded chain tx pool h =
      ground (arith, add_with_fee-IsBounded tx (fee_of env chain tx) pool h)

  length-remove_hashes :
      (txs : List Transaction) (m : Map Hash256 (MempoolEntry F))
      → length (remove_hashes env txs m) ≤ length m
  unfolding remove_hashes
  length-remove_hashes [] m = omega arith
  length-remove_hashes (tx ∷ txs) m = elim (Bool-cases (is_coinbase tx)) [
    | inl coinbase ↦ rw coinbase (length-remove_hashes txs m)
    | inr plain ↦
        let id = tx_hash env.ext tx in
        rw plain (omega (arith, length-remove_hashes txs (remove id m), length-remove id m))
  ]

  -- A transaction that the pool takes was not in it, is valid on the chain, and is in it now, with
  -- the fee that the chain's outputs leave.
  pub validate_and_add_sound :
      (chain : Chain F S) (tx : Transaction) (pool : Mempool F) (id : Hash256)
      → (validate_and_add env chain tx pool).0 ≡ ok id
      → (id ≡ txid_v1 env.ext tx)
        × (contains_key pool.entries id ≡ false)
        × (validate_transaction_for_mempool env chain tx ≡ ok tt)
        × (get (validate_and_add env chain tx pool).1.entries id
            ≡ some (record {
              tx = tx;
              fee = fee_of env chain tx;
              size = tx_size env.ext tx;
              fee_rate = fee_rate_of env (fee_of env chain tx) (tx_size env.ext tx);
            }))
  unfolding validate_and_add add_with_fee
  validate_and_add_sound chain tx pool id h =
      let txid = txid_v1 env.ext tx in
      let entry : MempoolEntry F = record {
        tx = tx;
        fee = fee_of env chain tx;
        size = tx_size env.ext tx;
        fee_rate = fee_rate_of env (fee_of env chain tx) (tx_size env.ext tx);
      } in
      elim (Result-cases (validate_transaction_for_mempool env chain tx)) [
        | inl (_, valid) ↦ ground (arith, valid, get-insert_self txid entry pool.entries)
        | inr (e, invalid) ↦ absurd (ground arith)
      ]

  -- After a block is confirmed, no transaction in the pool spends an output that the block spends.
  pub remove_confirmed-SpendNone :
      (block : Block) (pool : Mempool F)
      → SpendNone (spent_outpoints block.transactions) (remove_confirmed env block pool).entries
  unfolding remove_confirmed
  remove_confirmed-SpendNone block pool =
      keep_unspent-SpendNone (spent_outpoints block.transactions)
        (remove_hashes env block.transactions pool.entries)

  -- No operation makes the pool hold more transactions than it may.
  pub operations-IsBounded :
      (chain : Chain F S) (tx : Transaction) (fee : ℕ) (block : Block) (pool : Mempool F)
      → IsBounded pool
      → IsBounded (add_with_fee env tx fee pool).1
        × IsBounded (validate_and_add env chain tx pool).1
        × IsBounded (remove_confirmed env block pool)
  unfolding remove_confirmed
  operations-IsBounded chain tx fee block pool h = (
    add_with_fee-IsBounded tx fee pool h,
    validate_and_add-IsBounded chain tx pool h,
    omega (
      arith,
      length-keep_unspent (spent_outpoints block.transactions)
          (remove_hashes env block.transactions pool.entries),
      length-remove_hashes block.transactions pool.entries,
    ),
  )

module _ {F S : Type 0} (env : Env F S) where
  open env use {float}

  -- The pending transactions are those of the pool's entries, each as often as it is there, with
  -- no fee rate above the one before it, if `<` on the rates is asymmetric.
  pub get_pending-IsSorted :
      (pool : Mempool F)
      → ((a b : F) → float.less a b ≡ true → float.less b a ≡ false)
      → (entries : List (MempoolEntry F)) × (get_pending env pool ≡ map (tx_of_entry env) entries)
        × IsSorted (rate_below env) entries
        × ((p : MempoolEntry F → Bool)
            → tally (rate_below env) p entries ≡ tally (rate_below env) p (values pool.entries))
  unfolding get_pending
  get_pending-IsSorted pool asym = (
    sort_by (rate_below env) (values pool.entries),
    refl,
    sort_by-IsSorted (rate_below env) (values pool.entries) (λ a b. asym a.fee_rate b.fee_rate),
    λ p. tally-sort_by (rate_below env) p (values pool.entries),
  )
