-- ===== src/Types/Bits.antt =====
-- core/types.rs: `leading_zero_bits` and `BlockHeader::meets_difficulty`.
pub mod Laws
use equiforge.Prelude.{ℕ, ◌+◌, Bool, [], ◌∷◌, Bytes, leb, ltb, nat_eq, if◌then◌else◌}
use equiforge.Types.Data.{BlockHeader}
use equiforge.Types.Externals.{Externals, header_hash}

-- `u8::leading_zeros`
unfoldable pub leading_zeros : ℕ → ℕ
leading_zeros b =
    if nat_eq b 0
    then 8
    else if ltb b 2
    then 7
    else if ltb b 4
    then 6
    else if ltb b 8
    then 5
    else if ltb b 16
    then 4
    else if ltb b 32
    then 3
    else if ltb b 64
    then 2
    else if ltb b 128
    then 1
    else 0

-- The loop over the bytes, with its running `count`.
unfoldable pub count_zero_bits : ℕ → Bytes → ℕ
unfolding leading_zeros
count_zero_bits count [] = count
count_zero_bits count (byte ∷ bytes) =
    let more = count_zero_bits (count + 8) bytes in
    if nat_eq byte 0 then more else count + leading_zeros byte

unfoldable pub leading_zero_bits : Bytes → ℕ
unfolding count_zero_bits
leading_zero_bits hash = count_zero_bits 0 hash

unfoldable pub meets_difficulty : Externals → BlockHeader → Bool
unfolding leading_zero_bits
meets_difficulty ext header =
    leb header.difficulty_target (leading_zero_bits (header_hash ext header))
