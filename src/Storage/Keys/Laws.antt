-- ===== src/Storage/Keys/Laws.antt =====
-- Keys are read back, and no two of them are the same.
use equiforge.Prelude.{
  ℕ, zero, suc, ◌+◌, ◌*◌, ◌/◌, ◌%◌, ◌^◌, ◌<◌, ◌≡◌, refl, arith, [], ◌∷◌, ◌++◌, Bytes, length, ok,
  u32_mod, le_bytes, length-append, take-append_at, drop-append_at, take_all,
}
use native.Mathlib.Nat.{pow-suc}
use equiforge.Types.{OutPoint, IsHash}
use equiforge.Storage.Keys.{be_bytes, from_be, from_le, utxo_key, outpoint_from_utxo_key}

pub length-be_bytes : (n x : ℕ) → length (be_bytes n x) ≡ n
unfolding be_bytes
length-be_bytes zero x = refl
length-be_bytes (suc n) x =
    omega
      (arith, length-append (be_bytes n (x / 256)) ((x % 256) ∷ []), length-be_bytes n (x / 256))

from_be-append : (high b : ℕ) (bs : Bytes) → from_be high (bs ++ b ∷ []) ≡ from_be high bs * 256 + b
unfolding from_be
from_be-append high b [] = refl
from_be-append high b (c ∷ bs) = from_be-append (high * 256 + c) b bs

-- A number that fits is read back from its bytes, high byte first, and low byte first.
pub from_be-be_bytes : (n x : ℕ) → x < 256 ^ n → from_be 0 (be_bytes n x) ≡ x
unfolding from_be be_bytes
from_be-be_bytes zero x h = omega arith
from_be-be_bytes (suc n) x h =
    let again = from_be-be_bytes n (x / 256) (omega (arith, pow-suc 256 n)) in
    omega (arith, from_be-append 0 (x % 256) (be_bytes n (x / 256)), again)

pub from_le-le_bytes : (n x : ℕ) → x < 256 ^ n → from_le (le_bytes n x) ≡ x
unfolding from_le le_bytes
from_le-le_bytes zero x h = omega arith
from_le-le_bytes (suc n) x h =
    let again = from_le-le_bytes n (x / 256) (omega (arith, pow-suc 256 n)) in omega (arith, again)

-- An outpoint is read back from its key.
pub outpoint_from_utxo_key-utxo_key :
    {E : Type 0}
    → (op : OutPoint) → IsHash op.txid
    → op.vout < u32_mod
    → outpoint_from_utxo_key {E = E} (utxo_key op) ≡ ok op
unfolding outpoint_from_utxo_key utxo_key
outpoint_from_utxo_key-utxo_key op sized fits =
    let tail = be_bytes 4 op.vout in
    let size : length (op.txid ++ tail) ≡ 36 =
      omega (arith, length-append op.txid tail, length-be_bytes 4 op.vout) in
    rw
      (
        size,
        take-append_at 32 op.txid tail sized,
        drop-append_at 32 op.txid tail sized,
        take_all 4 tail (omega (arith, length-be_bytes 4 op.vout)),
        from_be-be_bytes 4 op.vout fits,
      )
      refl
