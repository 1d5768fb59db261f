-- ===== src/Tests/Wallet.antt =====
-- A wallet with one key: its file, its coins and a transaction that it sends.
use equiforge.Prelude.{
  ℕ, zero, suc, ◌≤◌, ◌≡◌, refl, ap, ◌∙◌, arith, false, List, [], ◌∷◌, ◌++◌, some, none, ok, Bytes,
  Bool-cases, inl, inr, replicate, is_empty, All, bytes_eq, bytes_eq_refl, Option, ◌+u64◌, ◌<◌,
  u64_mod, bytes_instance,
}
use equiforge.Prelude.Maps.{get, HasOnce}
use equiforge.Prelude.Sort.{sort_by}
use equiforge.Types.{OutPoint, Transaction, outpoint_instance, outpoint_eq, IsHash}
use equiforge.Types.Externals.{Externals, double_sha256}
use equiforge.Crypto.Hashes.{pubkey_bytes_to_hash}
use equiforge.Script.Encoding.{parse_script_pubkey_p2pkh}
use equiforge.Chain.Utxo.{UtxoEntry, utxos_for}
use equiforge.Chain.Validate.{validate_transaction, is_immature}
use equiforge.Wallet.Keys.{
  Signer, IsLawful, Keypair, from_secret_bytes, public_key_bytes, pubkey_hash_of, pubkey_hashes,
}
use equiforge.Wallet.Cipher.{encrypt_data, decrypt_data, decrypt-encrypt}
use equiforge.Wallet.Coins.{Coin, coins_of, mature_coins, select_utxos, take_until}
use equiforge.Wallet.Coins.Owned.{IsOwned}
use equiforge.Wallet.Coins.Laws.{sum_amounts, holdings, ripe_holdings, select_utxos_sound}
use equiforge.Wallet.Send.{create_send_tx}
use equiforge.Wallet.Send.Sign.{LocksToHash}
use equiforge.Wallet.Send.Laws.{create_send_tx_passes}
use equiforge.Wallet.File.{
  WalletFile, Wallet, Codec, IsFaithful, Random, Disk, save, load_or_create_with_password,
  create_at, new,
}
use equiforge.Wallet.File.Laws.{fresh_wallet, load-save, load_again}
use equiforge.Tests.Toy.{toy, checksum}
use equiforge.Tests.Utxos.{key, owned_at, entry, wallet}

-- A signature is the checksums of the message and of the public key.
abbrev signing_toy : Externals
signing_toy = record toy {
  ed25519_verify =
      λ pubkey message signature. bytes_eq signature (checksum message ++ checksum pubkey);
}

abbrev signer : Signer
signer = record {
  public_of = checksum;
  sign = λ secret message. checksum message ++ checksum (checksum secret);
}

lawful : IsLawful signing_toy signer
lawful = record {
  length-public = λ secret. refl;
  length-sign = λ secret message. refl;
  verify-sign = λ secret message. bytes_eq_refl (checksum message ++ checksum (checksum secret));
}

sized : (bytes : Bytes) → IsHash (signing_toy.sha256 bytes)
sized bytes = refl

abbrev keypairs : List Keypair
keypairs = from_secret_bytes key ∷ []

once : HasOnce wallet
unfolding get
once = (refl, tt)

locks : (op : OutPoint) (e : UtxoEntry) → get wallet op ≡ some e → LocksToHash e.output
unfolding get parse_script_pubkey_p2pkh
locks op e found h parsed = elim (Bool-cases (outpoint_eq owned_at op)) [
  | inl same ↦
      let is : entry ≡ e = ground arith in
      let nothing : parse_script_pubkey_p2pkh entry.output.script_pubkey ≡ ok h =
        ap (λ (x : UtxoEntry). parse_script_pubkey_p2pkh x.output.script_pubkey) is ∙ parsed in
      absurd (cc nothing)
  | inr apart ↦ absurd (ground arith)
]

held : holdings signing_toy signer keypairs wallet ≡ 5000
unfolding coins_of utxos_for pubkey_hashes pubkey_hash_of public_key_bytes from_secret_bytes
    pubkey_bytes_to_hash double_sha256 bytes_eq
held = refl

ripe : ripe_holdings signing_toy signer keypairs wallet 7 ≡ 5000
unfolding coins_of utxos_for pubkey_hashes pubkey_hash_of public_key_bytes from_secret_bytes
    pubkey_bytes_to_hash double_sha256 bytes_eq mature_coins
ripe = refl

create_send_tx_passes_example :
    (tx : Transaction) × (create_send_tx signing_toy signer keypairs wallet
        (replicate 32 8)
        3000
        1000
        7
      ≡ ok tx)
    × (validate_transaction signing_toy wallet tx 9 ≡ ok tt)
create_send_tx_passes_example =
    create_send_tx_passes signing_toy signer keypairs wallet (replicate 32 8) 3000 1000 7 9 lawful
      once locks (omega (arith, held)) (omega arith) (omega arith) (omega (arith, ripe))
      (omega arith)

selected_coins :
    select_utxos signing_toy signer keypairs wallet 3000 1000 7 ≡ ok ((owned_at, entry) ∷ [])
unfolding select_utxos coins_of utxos_for pubkey_hashes pubkey_hash_of public_key_bytes
    from_secret_bytes pubkey_bytes_to_hash double_sha256 bytes_eq mature_coins take_until sort_by
selected_coins = refl

select_utxos_sound_example :
    All
      (λ (c : Coin).
        IsOwned wallet signing_toy signer keypairs c × (is_immature signing_toy c.1 7 ≡ false))
      ((owned_at, entry) ∷ [])
    × (3000 +u64 1000 ≤ sum_amounts ((owned_at, entry) ∷ []))
    × (sum_amounts ((owned_at, entry) ∷ []) < u64_mod)
    × (is_empty {A = Coin} ((owned_at, entry) ∷ []) ≡ false)
select_utxos_sound_example =
    select_utxos_sound signing_toy signer keypairs wallet 3000 1000 7 ((owned_at, entry) ∷ []) once
      (omega (arith, held)) selected_coins

-- A key ends with 0 and the keys with 1; every byte of a key is raised by 2.
abbrev write_key : Bytes → Bytes → Bytes
write_key [] after = 0 ∷ after
write_key (b ∷ bs) after = suc (suc b) ∷ write_key bs after

abbrev write_keys : List Bytes → Bytes → Bytes
write_keys [] label = 1 ∷ label
write_keys (k ∷ ks) label = write_key k (write_keys ks label)

abbrev onto_key : ℕ → List Bytes → List Bytes
onto_key b [] = []
onto_key b (k ∷ ks) = (b ∷ k) ∷ ks

abbrev read_keys : Bytes → List Bytes × Bytes
read_keys [] = ([], [])
read_keys (zero ∷ bs) = let others = read_keys bs in ([] ∷ others.0, others.1)
read_keys (suc zero ∷ bs) = ([], bs)
read_keys (suc (suc b) ∷ bs) = let others = read_keys bs in (onto_key b others.0, others.1)

read-write_key :
    (k : Bytes) (after : Bytes)
    → read_keys (write_key k after) ≡ (k ∷ (read_keys after).0, (read_keys after).1)
read-write_key [] after = refl
read-write_key (b ∷ bs) after = rw (read-write_key bs after) refl

read-write_keys : (ks : List Bytes) (label : Bytes) → read_keys (write_keys ks label) ≡ (ks, label)
read-write_keys [] label = refl
read-write_keys (k ∷ ks) label =
    rw (read-write_key k (write_keys ks label), read-write_keys ks label) refl

abbrev codec : Codec (Option WalletFile)
codec = record {
  hex_encode = λ bytes. bytes;
  hex_decode = λ bytes. some bytes;
  serialize = λ plain. write_keys plain.0 plain.1;
  deserialize = λ text. some (read_keys text);
  print = λ file. some file;
  parse = λ text. text;
}

faithful : IsFaithful codec
faithful = record {
  hex_decode-hex_encode = λ bytes. refl;
  deserialize-serialize = λ plain. ap (λ p. some p) (read-write_keys plain.0 plain.1);
  parse-print = λ file. refl;
}

abbrev random : Random
random = record { secret = replicate 32 9; salt = replicate 16 1; nonce = replicate 12 2 }

abbrev my_wallet : Wallet
my_wallet = record {
  keypairs = keypairs;
  label = 1 ∷ 2 ∷ [];
  path = none;
  password = some (7 ∷ []);
}

load-save_example :
    (let placed = record my_wallet { path = some (3 ∷ []) } in
      let disk' = save signing_toy codec random placed [] in
      load_or_create_with_password signing_toy codec (3 ∷ []) [] (some (7 ∷ [])) random disk'
      ≡ ok (placed, disk'))
load-save_example =
    load-save signing_toy codec (3 ∷ []) [] random random my_wallet [] faithful sized refl refl

abbrev broken : Disk (Option WalletFile)
broken = (3 ∷ [], none) ∷ []

broken_disk : get broken (3 ∷ []) ≡ some none
unfolding get bytes_eq
broken_disk = refl

-- The wallet that takes the place of the broken file.
abbrev replacement : Wallet
replacement = fresh_wallet signing_toy codec (3 ∷ []) [] none random

overwritten :
    load_or_create_with_password signing_toy codec (3 ∷ []) [] none random broken
    ≡ ok (replacement, save signing_toy codec random replacement broken)
unfolding load_or_create_with_password create_at new
overwritten = rw (load_or_create_with_password, broken_disk) refl

load_again_example :
    load_or_create_with_password signing_toy codec
      (3 ∷ [])
      (4 ∷ [])
      none
      random
      (save signing_toy codec random replacement broken)
    ≡ ok (replacement, save signing_toy codec random replacement broken)
load_again_example =
    load_again signing_toy codec (3 ∷ []) [] (4 ∷ []) none random random replacement broken
      (save signing_toy codec random replacement broken) faithful sized refl overwritten

abbrev secret_text : Bytes
secret_text = 1 ∷ 2 ∷ 3 ∷ []

decrypted : decrypt_data toy (encrypt_data toy secret_text key []) key [] ≡ ok secret_text
decrypted = decrypt-encrypt toy secret_text key [] (λ bytes. refl)
