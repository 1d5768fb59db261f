-- ===== src/Tests/Toy.antt =====
-- A toy environment: a checksum as the hash, signatures that are their message, whole numbers in
-- place of floating-point ones, and a storage that counts its writes.
use equiforge.Prelude.{
  ℕ, suc, ◌+◌, ◌*◌, ◌/◌, ◌%◌, [], ◌∷◌, ◌++◌, none, ok, Bytes, nat_eq, ltb, replicate, u64_le,
  bytes_eq, if◌then◌else◌, min, take, length,
}
use equiforge.Types.{Hash256}
use equiforge.Types.Externals.{Externals}
use equiforge.Chain.Difficulty.{Float, pos}
use equiforge.Chain.Stored.{StorageOps}
use equiforge.Chain.State.{Env}

abbrev pub total : Bytes → ℕ
total [] = 0
total (b ∷ bs) = b + total bs

-- Thirty-one zero bytes and the sum of the bytes.
abbrev pub checksum : Bytes → Hash256
checksum bs = replicate 31 0 ++ (total bs % 256) ∷ []

abbrev pub toy : Externals
toy = record {
  sha256 = checksum;
  serialize_tx = λ tx. u64_le tx.version ++ u64_le (length tx.outputs) ++ u64_le tx.lock_time;
  serialize_header = λ h. 7 ∷ (u64_le h.height ++ u64_le h.nonce);
  serialize_block = λ b. u64_le b.header.height;
  ed25519_verify = λ pubkey message signature. bytes_eq (take 32 signature) message;
  equihash_x = checksum;
}

abbrev pub whole : Float ℕ
whole = record {
  of_ℕ = λ n. n;
  one_half = 0;
  add = λ a b. a + b;
  mul = λ a b. a * b;
  div = λ a b. a / b;
  neg = λ a. 0;
  ln = λ a. 0;
  min_of = λ a b. min a b;
  clamp = λ x lo hi. if ltb x lo then lo else if ltb hi x then hi else x;
  eqb = λ a b. nat_eq a b;
  less = λ a b. ltb a b;
  round_i32 = λ a. pos a;
}

abbrev pub counter : StorageOps ℕ ℕ
counter = record {
  put_block = λ h b s. suc s;
  put_header = λ h b s. suc s;
  put_height_index = λ h k s. suc s;
  clear_height_index = λ s. suc s;
  put_utxo = λ o e s. suc s;
  remove_utxo = λ o s. suc s;
  put_undo = λ h u s. suc s;
  get_undo = λ h s. ok none;
  put_tip = λ h s. suc s;
  put_height = λ h s. suc s;
  put_timestamps = λ t s. suc s;
  put_fractional_difficulty = λ f s. suc s;
  flush = λ s. s;
  clear_all = λ s. 0;
}

abbrev pub toy_env : Env ℕ ℕ
toy_env = record { ext = toy; float = whole; db = counter; genesis_timestamp = 1000 }
