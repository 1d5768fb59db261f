-- ===== src/Script/Encoding.antt =====
-- core/script.rs: building and parsing the two standard scripts.
pub mod Laws
use equiforge.Prelude.{
  ℕ, Bool, [], ◌∷◌, ◌++◌, Bytes, length, nat_eq, not, ◌||◌, if◌then◌else◌, get_or, take, drop,
  Result, ok, err,
}
use equiforge.Types.{Hash256}

abbrev pub op_dup : ℕ
op_dup = 0x76

abbrev pub op_hash256 : ℕ
op_hash256 = 0xAA

abbrev pub op_equalverify : ℕ
op_equalverify = 0x88

abbrev pub op_checksig : ℕ
op_checksig = 0xAC

abbrev pub op_pushdata1 : ℕ
op_pushdata1 = 0x4c

pub data ScriptError : Type 0 where
  non_standard bad_encoding pubkey_hash_mismatch bad_signature : ScriptError

unfoldable pub script_p2pkh : Hash256 → Bytes
script_p2pkh pubkey_hash =
    op_dup ∷ op_hash256 ∷ op_pushdata1 ∷ 32 ∷ (pubkey_hash ++ op_equalverify ∷ op_checksig ∷ [])

unfoldable pub script_sig_p2pkh : Bytes → Bytes → Bytes
script_sig_p2pkh sig64 pubkey32 = op_pushdata1 ∷ 64 ∷ (sig64 ++ op_pushdata1 ∷ 32 ∷ pubkey32)

-- `script[i]`, read where the length has been tested.
abbrev pub byte_at : Bytes → ℕ → ℕ
byte_at script i = get_or script i 0

abbrev pub differs : ℕ → ℕ → Bool
differs a b = not (nat_eq a b)

unfoldable pub parse_script_sig_p2pkh : Bytes → Result ScriptError (Bytes × Bytes)
parse_script_sig_p2pkh script_sig =
    if differs (length script_sig) 100
    then err bad_encoding
    else if differs (byte_at script_sig 0) op_pushdata1 || differs (byte_at script_sig 1) 64
    then err bad_encoding
    else if differs (byte_at script_sig 66) op_pushdata1 || differs (byte_at script_sig 67) 32
    then err bad_encoding
    else ok (take 64 (drop 2 script_sig), take 32 (drop 68 script_sig))

unfoldable pub parse_script_pubkey_p2pkh : Bytes → Result ScriptError Hash256
parse_script_pubkey_p2pkh script_pubkey =
    if differs (length script_pubkey) 38
    then err non_standard
    else if differs (byte_at script_pubkey 0) op_dup
        || differs (byte_at script_pubkey 1) op_hash256
        || differs (byte_at script_pubkey 2) op_pushdata1
        || differs (byte_at script_pubkey 3) 32
        || differs (byte_at script_pubkey 36) op_equalverify
        || differs (byte_at script_pubkey 37) op_checksig
    then err non_standard
    else ok (take 32 (drop 4 script_pubkey))
