-- ===== src/Network/Compact.antt =====
-- network/mod.rs: `PendingCompact`, the compact blocks that wait for transactions.
pub mod Laws
use equiforge.Prelude.{
  ℕ, ◌+◌, zero, suc, Bool, true, false, List, [], ◌∷◌, ◌++◌, Bytes, Option, none, some, length, ltb,
  leb, max, bytes_eq, is_empty, if◌then◌else◌, ◌||◌, Result, ok, err, bytes_instance,
}
use equiforge.Prelude.Maps.{Map, get, insert, remove, contains_key}
use equiforge.Types.{Hash256, Transaction, BlockHeader, Block}
use equiforge.Types.Externals.{header_hash}
use equiforge.Types.Bits.{leading_zero_bits}
use equiforge.Types.Coinbase.{is_coinbase}
use equiforge.Crypto.Hashes.{txid_v1}
use equiforge.Chain.Errors.{BlockError, duplicate_block, orphan_block, invalid_height}
use equiforge.Chain.State.{Env, Chain}
use equiforge.Chain.Accept.{add_block}
use equiforge.Network.Peers.{
  PeerScoreboard, record_offense, Offense, invalid_block, invalid_transaction,
}
use equiforge.Network.Mempool.{Mempool, validate_and_add, remove_confirmed, get_pending}
use equiforge.Network.Locator.{build_locator}
use equiforge.Network.Message.{NetMessage, get_headers_from, get_transactions, transaction_batch}

pub record PendingCompact : Type 0 where
  pub header : BlockHeader
  pub txs : List (Option Transaction)
  pub index_map : Map Hash256 ℕ
  pub missing : List Hash256
  pub created_at : ℕ

-- `min_by_key(|(_, pc)| pc.created_at)`: the first of the oldest.
unfoldable pub oldest_of : Hash256 → ℕ → Map Hash256 PendingCompact → Hash256
oldest_of hash created_at [] = hash
oldest_of hash created_at ((h, pc) ∷ pending) =
    let earlier = oldest_of h pc.created_at pending in
    let same = oldest_of hash created_at pending in
    if ltb pc.created_at created_at then earlier else same

-- One is evicted where there are 50.
unfoldable pub make_room : Map Hash256 PendingCompact → Map Hash256 PendingCompact
unfolding oldest_of
make_room [] = []
make_room ((h, pc) ∷ pending) =
    if leb 50 (length ((h, pc) ∷ pending))
    then remove (oldest_of h pc.created_at pending) ((h, pc) ∷ pending)
    else (h, pc) ∷ pending

unfoldable pub has_hash : Hash256 → List Hash256 → Bool
has_hash hash [] = false
has_hash hash (h ∷ hashes) = bytes_eq h hash || has_hash hash hashes

-- `missing`, a set, with a hash put in.
unfoldable pub add_hash : Hash256 → List Hash256 → List Hash256
unfolding has_hash
add_hash hash hashes = if has_hash hash hashes then hashes else hash ∷ hashes

-- The next place of `txs`: a transaction of the mempool, or one that is missing.
unfoldable pub place_found : Hash256 → Option Transaction → PendingCompact → PendingCompact
unfolding add_hash
place_found txid (some tx) pc = record pc {
  txs = pc.txs ++ some tx ∷ [];
  index_map = insert txid (length pc.txs) pc.index_map;
}
place_found txid none pc = record pc {
  txs = pc.txs ++ none ∷ [];
  index_map = insert txid (length pc.txs) pc.index_map;
  missing = add_hash txid pc.missing;
}

-- `missing` with a hash taken out.
unfoldable pub drop_hash : Hash256 → List Hash256 → List Hash256
drop_hash hash [] = []
drop_hash hash (h ∷ hashes) =
    let others = drop_hash hash hashes in if bytes_eq h hash then others else h ∷ others

unfoldable pub set_at : {A : Type 0} → ℕ → A → List A → List A
set_at i a [] = []
set_at zero a (x ∷ xs) = a ∷ xs
set_at (suc i) a (x ∷ xs) = x ∷ set_at i a xs

-- The transactions, if all are there.
unfoldable pub all_there : List (Option Transaction) → Option (List Transaction)
all_there [] = some []
all_there (none ∷ txs) = none
all_there (some tx ∷ txs) = elim (all_there txs) [ none ↦ none | some others ↦ some (tx ∷ others) ]

-- The loop over the pending blocks: each takes the transaction that it lacks.
unfoldable pub feed : Hash256 → Transaction → PendingCompact → PendingCompact
unfolding has_hash drop_hash set_at
feed txid tx pc =
    let fed = record pc {
      txs = elim (get pc.index_map txid) [ none ↦ pc.txs | some idx ↦ set_at idx (some tx) pc.txs ];
      missing = drop_hash txid pc.missing;
    } in
    if has_hash txid pc.missing then fed else pc

unfoldable pub feed_all :
    Hash256 → Transaction → Map Hash256 PendingCompact → Map Hash256 PendingCompact
unfolding feed
feed_all txid tx [] = []
feed_all txid tx ((h, pc) ∷ pending) = (h, feed txid tx pc) ∷ feed_all txid tx pending

unfoldable pub completed : Map Hash256 PendingCompact → List Hash256
completed [] = []
completed ((h, pc) ∷ pending) =
    let others = completed pending in if is_empty pc.missing then h ∷ others else others

-- What `unwrap` is applied to is there where nothing is missing.
unfoldable pub or_nothing : Option (List Transaction) → List Transaction
or_nothing none = []
or_nothing (some txs) = txs
