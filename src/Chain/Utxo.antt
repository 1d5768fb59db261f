-- ===== src/Chain/Utxo.antt =====
-- core/chain.rs: `UtxoEntry`, `UtxoSet` and `BlockUndo`.
use equiforge.Prelude.{ℕ, Bool, List, [], ◌∷◌, Option, bytes_eq, if◌then◌else◌, ◌+u64◌}
use equiforge.Prelude.Maps.{Map, get, insert, remove, contains_key}
use equiforge.Types.{Hash256, OutPoint, TxOutput, outpoint_instance}

pub record UtxoEntry : Type 0 where
  pub output : TxOutput
  pub height : ℕ
  pub is_coinbase : Bool

-- The field `utxos` of the struct.
abbrev pub UtxoSet : Type 0
UtxoSet = Map OutPoint UtxoEntry

abbrev pub empty : UtxoSet
empty = []

unfoldable pub add : OutPoint → UtxoEntry → UtxoSet → UtxoSet
add outpoint entry set = insert outpoint entry set

-- What is removed, and the set without it.
unfoldable pub spend : OutPoint → UtxoSet → Option UtxoEntry × UtxoSet
spend outpoint set = (get set outpoint, remove outpoint set)

unfoldable pub contains : UtxoSet → OutPoint → Bool
contains set outpoint = contains_key set outpoint

-- The sum is on `u64`, and wraps.
unfoldable pub balance_of : UtxoSet → Hash256 → ℕ
balance_of [] pubkey_hash = 0
balance_of ((_, e) ∷ set) pubkey_hash =
    let others = balance_of set pubkey_hash in
    if bytes_eq e.output.pubkey_hash pubkey_hash then e.output.amount +u64 others else others

unfoldable pub utxos_for : UtxoSet → Hash256 → List (OutPoint × UtxoEntry)
utxos_for [] pubkey_hash = []
utxos_for ((op, e) ∷ set) pubkey_hash =
    let others = utxos_for set pubkey_hash in
    if bytes_eq e.output.pubkey_hash pubkey_hash then (op, e) ∷ others else others

pub record BlockUndo : Type 0 where
  pub spent : List (OutPoint × UtxoEntry)
  pub created : List OutPoint
