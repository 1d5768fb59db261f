-- ===== src/Wallet/Cipher.antt =====
-- wallet/mod.rs: `derive_key`, `encrypt_data` and `decrypt_data`.
use Prim.Native.Nat.{bit_xor}
use equiforge.Prelude.{
  ℕ, zero, suc, ◌+◌, ◌-◌, ◌≡◌, refl, arith, not, ◌||◌, [], ◌∷◌, ◌++◌, Bytes, nat_eq, ltb, leb,
  bytes_eq, bytes_eq_refl, bytes_eq_iff, if◌then◌else◌, length, take, drop, get_or, u64_le, ◌+u64◌,
  replicate, Result, ok, err, length-append, take-append_at, drop-append_at, take-append-drop,
}
use equiforge.Prelude.Xor.{xor_twice}
use equiforge.Types.{Hash256, IsHash}
use equiforge.Types.Externals.{Externals}

abbrev pub kdf_iterations : ℕ
kdf_iterations = 100000

-- The texts of the errors.
pub data CipherError : Type 0 where
  ciphertext_too_short wrong_password : CipherError

module _ (ext : Externals) where
  -- `for _ in 0..n`
  unfoldable pub rehash : ℕ → Hash256 → Hash256
  rehash zero hash = hash
  rehash (suc n) hash = rehash n (ext.sha256 hash)

  unfoldable pub derive_key : Bytes → Bytes → Hash256
  derive_key password salt = rehash kdf_iterations (ext.sha256 (password ++ salt))

  -- The loop that both functions have: from a position in the keystream block on.
  unfoldable pub xor_stream : Bytes → Bytes → ℕ → ℕ → Bytes → Bytes → Bytes
  xor_stream key nonce keystream_pos block_counter keystream_block [] = []
  xor_stream key nonce keystream_pos block_counter keystream_block (byte ∷ bytes) =
      let refill = nat_eq keystream_pos 0 || leb 32 keystream_pos in
      let block =
        if refill then ext.sha256 (key ++ (nonce ++ u64_le block_counter)) else keystream_block in
      let counter = if refill then block_counter +u64 1 else block_counter in
      let pos = if refill then 0 else keystream_pos in
      bit_xor byte (get_or block pos 0) ∷ xor_stream key nonce (pos + 1) counter block bytes

  abbrev pub apply_keystream : Bytes → Bytes → Bytes → Bytes
  apply_keystream key nonce bytes = xor_stream key nonce 0 0 (replicate 32 0) bytes

  unfoldable pub encrypt_data : Bytes → Bytes → Bytes → Bytes
  encrypt_data plaintext key nonce =
      let ciphertext = apply_keystream key nonce plaintext in
      ciphertext ++ ext.sha256 (key ++ ciphertext)

  unfoldable pub decrypt_data : Bytes → Bytes → Bytes → Result CipherError Bytes
  decrypt_data ciphertext_with_mac key nonce =
      let at = length ciphertext_with_mac - 32 in
      let ciphertext = take at ciphertext_with_mac in
      let mac = drop at ciphertext_with_mac in
      if ltb (length ciphertext_with_mac) 32
      then err ciphertext_too_short
      else if not (bytes_eq mac (ext.sha256 (key ++ ciphertext)))
      then err wrong_password
      else ok (apply_keystream key nonce ciphertext)

  xor_stream_twice :
      (key nonce : Bytes) (pos counter : ℕ) (block bytes : Bytes)
      → xor_stream key nonce pos counter block (xor_stream key nonce pos counter block bytes)
        ≡ bytes
  unfolding xor_stream
  xor_stream_twice key nonce pos counter block [] = refl
  xor_stream_twice key nonce pos counter block (byte ∷ bytes) =
      let refill = nat_eq pos 0 || leb 32 pos in
      let block' = if refill then ext.sha256 (key ++ (nonce ++ u64_le counter)) else block in
      let counter' = if refill then counter +u64 1 else counter in
      let pos' = if refill then 0 else pos in
      λ i.
        xor_twice byte (get_or block' pos' 0) i
        ∷ xor_stream_twice key nonce (pos' + 1) counter' block' bytes i

  -- What is encrypted is decrypted to the plaintext, under the same key and nonce.
  pub decrypt-encrypt :
      (plaintext key nonce : Bytes)
      → ((bytes : Bytes) → IsHash (ext.sha256 bytes))
      → decrypt_data (encrypt_data plaintext key nonce) key nonce ≡ ok plaintext
  unfolding decrypt_data encrypt_data
  decrypt-encrypt plaintext key nonce sized =
      let c = apply_keystream key nonce plaintext in
      let mac = ext.sha256 (key ++ c) in
      let size : length (c ++ mac) - 32 ≡ length c =
        omega (arith, length-append c mac, sized (key ++ c)) in
      let front : take (length (c ++ mac) - 32) (c ++ mac) ≡ c =
        rw size (take-append_at (length c) c mac refl) in
      let back : drop (length (c ++ mac) - 32) (c ++ mac) ≡ mac =
        rw size (drop-append_at (length c) c mac refl) in
      ground (
        arith,
        front,
        back,
        bytes_eq_refl mac,
        length-append c mac,
        sized (key ++ c),
        xor_stream_twice key nonce 0 0 (replicate 32 0) plaintext,
      )

  -- Only a text that ends with the right checksum for the key is decrypted.
  pub decrypt_data_checked :
      (text key nonce plaintext : Bytes)
      → decrypt_data text key nonce ≡ ok plaintext
      → text ≡ encrypt_data plaintext key nonce
  unfolding decrypt_data encrypt_data
  decrypt_data_checked text key nonce plaintext h =
      let at = length text - 32 in
      let split = take-append-drop at text in
      let twice = xor_stream_twice key nonce 0 0 (replicate 32 0) (take at text) in
      let mac = bytes_eq_iff (drop at text) (ext.sha256 (key ++ take at text)) in
      ground (arith, split, twice, mac)
