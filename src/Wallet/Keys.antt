-- ===== src/Wallet/Keys.antt =====
-- wallet/mod.rs: `Keypair`. A key pair is its 32 secret bytes; `ed25519_dalek` is a parameter.
use equiforge.Prelude.{
  ◌≡◌, true, List, [], ◌∷◌, Bytes, length, map, Option, none, some, bytes_eq, if◌then◌else◌,
}
use equiforge.Types.{Hash256}
use equiforge.Types.Externals.{Externals}
use equiforge.Crypto.Hashes.{pubkey_bytes_to_hash}

pub record Signer : Type 0 where
  -- `SigningKey::from_bytes(secret).verifying_key().to_bytes()`
  pub public_of : Bytes → Bytes
  -- `SigningKey::from_bytes(secret).sign(message).to_bytes()`
  pub sign : Bytes → Bytes → Bytes

-- What `ed25519_dalek` documents: the sizes, and that a signature verifies under its key.
pub record IsLawful (ext : Externals) (signer : Signer) : Type 0 where
  pub length-public : (secret : Bytes) → length (signer.public_of secret) ≡ 32
  pub length-sign : (secret message : Bytes) → length (signer.sign secret message) ≡ 64
  pub verify-sign :
      (secret message : Bytes)
      → ext.ed25519_verify (signer.public_of secret) message (signer.sign secret message) ≡ true

pub record Keypair : Type 0 where
  pub secret : Bytes

unfoldable pub from_secret_bytes : Bytes → Keypair
from_secret_bytes bytes = record { secret = bytes }

unfoldable pub secret_bytes : Keypair → Bytes
secret_bytes kp = kp.secret

module _ (ext : Externals) (signer : Signer) where
  unfoldable pub public_key_bytes : Keypair → Bytes
  public_key_bytes kp = signer.public_of kp.secret

  unfoldable pub pubkey_hash_of : Keypair → Hash256
  unfolding public_key_bytes
  pubkey_hash_of kp = pubkey_bytes_to_hash ext (public_key_bytes kp)

  -- `find` over the key pairs.
  unfoldable pub keypair_for_hash : List Keypair → Hash256 → Option Keypair
  keypair_for_hash [] hash = none
  keypair_for_hash (kp ∷ keypairs) hash =
      let further = keypair_for_hash keypairs hash in
      if bytes_eq (pubkey_hash_of kp) hash then some kp else further

  unfoldable pub pubkey_hashes : List Keypair → List Hash256
  pubkey_hashes keypairs = map pubkey_hash_of keypairs
