-- ===== src/Chain/Stored.antt =====
-- storage/mod.rs: the stored forms of UTXO entries and undo records; core/chain.rs: `to_stored` and
-- `from_stored`. And the operations of `Storage`, as core/chain.rs calls them.
use equiforge.Prelude.{ℕ, Bool, List, [], ◌∷◌, map, Option, Bytes, Result, ◌≡◌, refl, ap}
use equiforge.Types.{Hash256, OutPoint, BlockHeader, Block}
use equiforge.Chain.Utxo.{UtxoEntry, BlockUndo}

pub record StoredUtxoEntry : Type 0 where
  pub amount : ℕ
  pub pubkey_hash : Hash256
  pub script_pubkey : Bytes
  pub height : ℕ
  pub is_coinbase : Bool

pub record StoredBlockUndo : Type 0 where
  pub spent : List (OutPoint × StoredUtxoEntry)
  pub created : List OutPoint

unfoldable pub stored_entry : UtxoEntry → StoredUtxoEntry
stored_entry entry = record {
  amount = entry.output.amount;
  pubkey_hash = entry.output.pubkey_hash;
  script_pubkey = entry.output.script_pubkey;
  height = entry.height;
  is_coinbase = entry.is_coinbase;
}

unfoldable pub to_utxo_entry : StoredUtxoEntry → UtxoEntry
to_utxo_entry stored = record {
  output = record {
    amount = stored.amount;
    pubkey_hash = stored.pubkey_hash;
    script_pubkey = stored.script_pubkey;
  };
  height = stored.height;
  is_coinbase = stored.is_coinbase;
}

stored_pair : OutPoint × UtxoEntry → OutPoint × StoredUtxoEntry
stored_pair (op, e) = (op, stored_entry e)

utxo_pair : OutPoint × StoredUtxoEntry → OutPoint × UtxoEntry
utxo_pair (op, se) = (op, to_utxo_entry se)

unfoldable pub to_stored : BlockUndo → StoredBlockUndo
unfolding stored_pair stored_entry
to_stored undo = record { spent = map stored_pair undo.spent; created = undo.created }

unfoldable pub from_stored : StoredBlockUndo → BlockUndo
unfolding utxo_pair to_utxo_entry
from_stored stored = record { spent = map utxo_pair stored.spent; created = stored.created }

pairs_back : (spent : List (OutPoint × UtxoEntry)) → map utxo_pair (map stored_pair spent) ≡ spent
unfolding utxo_pair stored_pair to_utxo_entry stored_entry
pairs_back [] = refl
pairs_back (x ∷ spent) = ap (λ t. x ∷ t) (pairs_back spent)

-- An undo record that is written to storage comes back as it was.
pub from_stored-to_stored : (undo : BlockUndo) → from_stored (to_stored undo) ≡ undo
unfolding from_stored to_stored
from_stored-to_stored undo = λ i. record { spent = pairs_back undo.spent i; created = undo.created }

-- What the chain asks of its storage, of states `S`. The chain discards the results of all writes
-- (`let _ = ...`): each is the state that it leaves, failed or not.
pub record StorageOps (F S : Type 0) : Type 0 where
  pub put_block : Hash256 → Block → S → S
  pub put_header : Hash256 → BlockHeader → S → S
  pub put_height_index : ℕ → Hash256 → S → S
  pub clear_height_index : S → S
  pub put_utxo : OutPoint → UtxoEntry → S → S
  pub remove_utxo : OutPoint → S → S
  pub put_undo : Hash256 → StoredBlockUndo → S → S
  pub get_undo : Hash256 → S → Result (Unit {0}) (Option StoredBlockUndo)
  pub put_tip : Hash256 → S → S
  pub put_height : ℕ → S → S
  pub put_timestamps : List ℕ → S → S
  pub put_fractional_difficulty : F → S → S
  pub flush : S → S
  pub clear_all : S → S
