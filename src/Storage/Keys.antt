-- ===== src/Storage/Keys.antt =====
-- storage/mod.rs: the keys, and the errors.
pub mod Laws
use equiforge.Prelude.{
  ℕ, zero, suc, ◌+◌, ◌*◌, ◌/◌, ◌%◌, [], ◌∷◌, ◌++◌, Bytes, length, take, drop, nat_eq, not,
  if◌then◌else◌, Result, ok, err,
}
use equiforge.Types.{OutPoint}

-- The message of a serialisation error is left out. `copy_from_slice` and an index out of range
-- panic, which is an error here.
pub data StorageError (E : Type 0) : Type 0 where
  db_error : E → StorageError E
  serialize_error panicked : StorageError E

-- b"blk:", b"hdr:", b"hgt:", b"utx:" and b"und:"
abbrev pub prefix_block : Bytes
prefix_block = b'b' ∷ b'l' ∷ b'k' ∷ b':' ∷ []

abbrev pub prefix_header : Bytes
prefix_header = b'h' ∷ b'd' ∷ b'r' ∷ b':' ∷ []

abbrev pub prefix_height : Bytes
prefix_height = b'h' ∷ b'g' ∷ b't' ∷ b':' ∷ []

abbrev pub prefix_utxo : Bytes
prefix_utxo = b'u' ∷ b't' ∷ b'x' ∷ b':' ∷ []

abbrev pub prefix_undo : Bytes
prefix_undo = b'u' ∷ b'n' ∷ b'd' ∷ b':' ∷ []

-- b"meta:tip", b"meta:height", b"meta:timestamps" and b"meta:frac_diff"
abbrev pub meta_tip : Bytes
meta_tip = b'm' ∷ b'e' ∷ b't' ∷ b'a' ∷ b':' ∷ b't' ∷ b'i' ∷ b'p' ∷ []

abbrev pub meta_height : Bytes
meta_height = b'm' ∷ b'e' ∷ b't' ∷ b'a' ∷ b':' ∷ b'h' ∷ b'e' ∷ b'i' ∷ b'g' ∷ b'h' ∷ b't' ∷ []

abbrev pub meta_timestamps : Bytes
meta_timestamps =
    b'm' ∷ b'e' ∷ b't' ∷ b'a' ∷ b':' ∷ b't' ∷ b'i' ∷ b'm' ∷ b'e' ∷ b's' ∷ b't' ∷ b'a' ∷ b'm' ∷ b'p'
    ∷ b's' ∷ []

abbrev pub meta_fractional_diff : Bytes
meta_fractional_diff =
    b'm' ∷ b'e' ∷ b't' ∷ b'a' ∷ b':' ∷ b'f' ∷ b'r' ∷ b'a' ∷ b'c' ∷ b'_' ∷ b'd' ∷ b'i' ∷ b'f' ∷ b'f'
    ∷ []

-- `to_be_bytes`, on as many bytes.
unfoldable pub be_bytes : ℕ → ℕ → Bytes
be_bytes zero x = []
be_bytes (suc n) x = be_bytes n (x / 256) ++ (x % 256) ∷ []

-- `from_be_bytes`, on top of the bytes that are read.
unfoldable pub from_be : ℕ → Bytes → ℕ
from_be high [] = high
from_be high (b ∷ bs) = from_be (high * 256 + b) bs

-- `from_le_bytes`
unfoldable pub from_le : Bytes → ℕ
from_le [] = 0
from_le (b ∷ bs) = b + 256 * from_le bs

unfoldable pub prefixed_key : Bytes → Bytes → Bytes
prefixed_key prefix data_bytes = prefix ++ data_bytes

unfoldable pub utxo_key : OutPoint → Bytes
unfolding be_bytes
utxo_key outpoint = prefix_utxo ++ (outpoint.txid ++ be_bytes 4 outpoint.vout)

unfoldable pub outpoint_from_utxo_key : {E : Type 0} → Bytes → Result (StorageError E) OutPoint
outpoint_from_utxo_key key =
    let data_bytes = drop 4 key in
    if not (nat_eq (length key) 40)
    then err serialize_error
    else ok (record { txid = take 32 data_bytes; vout = from_be 0 (take 4 (drop 32 data_bytes)) })
