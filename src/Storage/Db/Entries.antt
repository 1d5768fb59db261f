-- ===== src/Storage/Db/Entries.antt =====
-- What a database holds: entries under keys, and the bytes of the keys.
use equiforge.Prelude.{
  ℕ, ◌<◌, ◌≡◌, refl, sym, ap, ◌∙◌, List, Bytes, Option, none, some, nat_eq, if◌then◌else◌, get_or,
  take, drop, u64_mod, u32_mod, Result, ok, err, take-append_at, drop-append_at,
}
use equiforge.Types.{Hash256, IsHash, OutPoint, BlockHeader, Block}
use equiforge.Chain.Utxo.{UtxoEntry}
use equiforge.Chain.Stored.{StoredBlockUndo}
use equiforge.Storage.Keys.{
  prefix_block, prefix_header, prefix_height, prefix_undo, meta_tip, meta_height, meta_timestamps,
  meta_fractional_diff, be_bytes, from_be, prefixed_key, utxo_key,
}
use equiforge.Storage.Keys.Laws.{from_be-be_bytes}

-- What a database may be asked for.
pub data Key : Type 0 where
  block_at header_at undo_at : Hash256 → Key
  hash_at : ℕ → Key
  utxo_at : OutPoint → Key
  tip height timestamps fractional_difficulty : Key

-- What it may hold, with its key.
pub data Entry (F : Type 0) : Type 0 where
  block : Hash256 → Block → Entry F
  header : Hash256 → BlockHeader → Entry F
  undo : Hash256 → StoredBlockUndo → Entry F
  hash : ℕ → Hash256 → Entry F
  utxo : OutPoint → UtxoEntry → Entry F
  the_tip : Hash256 → Entry F
  the_height : ℕ → Entry F
  the_timestamps : List ℕ → Entry F
  the_difficulty : F → Entry F

-- The numbers and hashes fit their types.
abbrev pub KeyFits : Key → Type 0
KeyFits (hash_at n) = n < u64_mod
KeyFits (utxo_at op) = IsHash op.txid × (op.vout < u32_mod)
KeyFits _ = Unit

unfoldable pub bytes_of : Key → Bytes
bytes_of (block_at h) = prefixed_key prefix_block h
bytes_of (header_at h) = prefixed_key prefix_header h
bytes_of (undo_at h) = prefixed_key prefix_undo h
bytes_of (hash_at n) = prefixed_key prefix_height (be_bytes 8 n)
bytes_of (utxo_at op) = utxo_key op
bytes_of tip = meta_tip
bytes_of height = meta_height
bytes_of timestamps = meta_timestamps
bytes_of fractional_difficulty = meta_fractional_diff

-- The key that some bytes stand for, told by their second and eighth byte.
key_from : Bytes → Key
key_from bytes =
    let c = get_or bytes 1 0 in
    let k = get_or bytes 7 0 in
    let others = drop 4 bytes in
    if nat_eq c b'l'
    then block_at others
    else if nat_eq c b'd'
    then header_at others
    else if nat_eq c b'n'
    then undo_at others
    else if nat_eq c b'g'
    then hash_at (from_be 0 others)
    else if nat_eq c b't'
    then utxo_at (record { txid = take 32 others; vout = from_be 0 (drop 32 others) })
    else if nat_eq k b'p'
    then tip
    else if nat_eq k b'i'
    then height
    else if nat_eq k b'm'
    then timestamps
    else fractional_difficulty

key_from-bytes_of : (key : Key) → KeyFits key → key_from (bytes_of key) ≡ key
unfolding key_from bytes_of prefixed_key utxo_key
key_from-bytes_of (block_at h) fits = refl
key_from-bytes_of (header_at h) fits = refl
key_from-bytes_of (undo_at h) fits = refl
key_from-bytes_of (hash_at n) fits = ap (λ m. hash_at m) (from_be-be_bytes 8 n fits)
key_from-bytes_of (utxo_at op) fits =
    let tail = be_bytes 4 op.vout in
    rw (take-append_at 32 op.txid tail fits.0, drop-append_at 32 op.txid tail fits.0)
      (ap (λ m. utxo_at (record { txid = op.txid; vout = m })) (from_be-be_bytes 4 op.vout fits.1))
key_from-bytes_of tip fits = refl
key_from-bytes_of height fits = refl
key_from-bytes_of timestamps fits = refl
key_from-bytes_of fractional_difficulty fits = refl

-- Different keys have different bytes.
pub bytes_of-injective : (j k : Key) → KeyFits j → KeyFits k → bytes_of j ≡ bytes_of k → j ≡ k
bytes_of-injective j k fits fits' e =
    sym (key_from-bytes_of j fits) ∙ ap key_from e ∙ key_from-bytes_of k fits'

module _ {F : Type 0} where
  abbrev pub key_of : Entry F → Key
  key_of (block h b) = block_at h
  key_of (header h b) = header_at h
  key_of (undo h u) = undo_at h
  key_of (hash n h) = hash_at n
  key_of (utxo op e) = utxo_at op
  key_of (the_tip h) = tip
  key_of (the_height n) = height
  key_of (the_timestamps ts) = timestamps
  key_of (the_difficulty f) = fractional_difficulty

  -- What an entry holds fits its type.
  abbrev pub ValueFits : Entry F → Type 0
  ValueFits (hash n h) = IsHash h
  ValueFits (the_tip h) = IsHash h
  ValueFits (the_height n) = n < u64_mod
  ValueFits _ = Unit

  unfoldable pub as_entry :
      {A E : Type 0} → (A → Entry F) → Result E (Option A) → Result E (Option (Entry F))
  as_entry f (ok none) = ok none
  as_entry f (ok (some a)) = ok (some (f a))
  as_entry f (err e) = err e
