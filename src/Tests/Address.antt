-- ===== src/Tests/Address.antt =====
-- Base 58 and addresses at concrete inputs.
use equiforge.Prelude.{
  ℕ, zero, suc, ◌≡◌, refl, arith, [], ◌∷◌, Bytes, some, none, ◌<◌, ◌%◌, All-append, replicate,
}
use equiforge.Wallet.Base58.{
  bs58_encode, bs58_decode, to_digits, divide, all_zero, letters, count_leading, take_letters,
  take_digit, position, multiply, push_carry,
}
use equiforge.Wallet.Base58.Radix.{AreBytes}
use equiforge.Wallet.Base58.RoundTrip.{bs58_decode-encode}
use equiforge.Wallet.Address.{pubkey_hash_to_address, address_to_pubkey_hash}
use equiforge.Wallet.Address.Laws.{IsDigest, address_to_pubkey_hash-address}
use equiforge.Tests.Toy.{toy, total}
use equiforge.Tests.Blocks.{hash_of}

-- "Hello World!"
abbrev hello : Bytes
hello = b'H' ∷ b'e' ∷ b'l' ∷ b'l' ∷ b'o' ∷ b' ' ∷ b'W' ∷ b'o' ∷ b'r' ∷ b'l' ∷ b'd' ∷ b'!' ∷ []

-- "2NEpo7TZRRrLZSi2U"
hello_encoded :
    bs58_encode hello
    ≡ b'2' ∷ b'N' ∷ b'E' ∷ b'p' ∷ b'o' ∷ b'7' ∷ b'T' ∷ b'Z' ∷ b'R' ∷ b'R' ∷ b'r' ∷ b'L' ∷ b'Z'
      ∷ b'S' ∷ b'i' ∷ b'2' ∷ b'U' ∷ []
unfolding bs58_encode to_digits divide all_zero letters count_leading
hello_encoded = refl

-- "0" is no letter
zero_refused : bs58_decode (b'1' ∷ b'0' ∷ []) ≡ none
unfolding bs58_decode take_letters take_digit position multiply push_carry
zero_refused = refl

two_zeros : AreBytes (0 ∷ 0 ∷ 1 ∷ 255 ∷ [])
two_zeros = (omega arith, (omega arith, (omega arith, (omega arith, tt))))

bs58_decode-encode_example :
    bs58_decode (bs58_encode (0 ∷ 0 ∷ 1 ∷ 255 ∷ [])) ≡ some (0 ∷ 0 ∷ 1 ∷ 255 ∷ [])
bs58_decode-encode_example = bs58_decode-encode (0 ∷ 0 ∷ 1 ∷ 255 ∷ []) two_zeros

zeros-AreBytes : (n : ℕ) → AreBytes (replicate n 0)
zeros-AreBytes zero = tt
zeros-AreBytes (suc n) = (omega arith, zeros-AreBytes n)

toy-IsDigest : IsDigest toy
toy-IsDigest = record {
  length-sha256 = λ message. refl;
  sha256-AreBytes = λ message.
      All-append (λ b. b < 256) (replicate 31 0) ((total message % 256) ∷ []) (zeros-AreBytes 31)
        (omega arith, tt);
}

seven-AreBytes : AreBytes (hash_of 7)
seven-AreBytes =
    All-append (λ b. b < 256) (replicate 31 0) (7 ∷ []) (zeros-AreBytes 31) (omega arith, tt)

address_to_pubkey_hash-address_example :
    address_to_pubkey_hash toy (pubkey_hash_to_address toy (hash_of 7)) ≡ some (hash_of 7)
address_to_pubkey_hash-address_example =
    address_to_pubkey_hash-address toy (hash_of 7) toy-IsDigest refl seven-AreBytes
