-- ===== src/Wallet/File.antt =====
-- wallet/mod.rs: `Wallet`, its file, and its operations on the file. `hex`, `bincode` and
-- `serde_json` are parameters, as is the type of the texts that the last one writes. The file system is a map from paths to texts,
-- and writing to it succeeds.
pub mod Laws
use equiforge.Prelude.{
  ℕ, ◌≡◌, Bool, true, false, List, [], ◌∷◌, ◌++◌, Bytes, map, Option, none, some, nat_eq, not,
  is_empty, length, Result, ok, err, ◌>>=◌, ◌>>◌, fail_if, bytes_instance,
}
use equiforge.Prelude.Maps.{Map, get, insert}
use equiforge.Types.{Hash256}
use equiforge.Types.Externals.{Externals}
use equiforge.Wallet.Keys.{Signer, Keypair, from_secret_bytes, secret_bytes, pubkey_hash_of}
use equiforge.Wallet.Cipher.{CipherError, derive_key, encrypt_data, decrypt_data}

pub record WalletFile : Type 0 where
  pub version : ℕ
  pub encrypted : Bool
  pub keys : List Bytes
  pub label : Bytes
  pub salt : Option Bytes
  pub nonce : Option Bytes
  pub ciphertext : Option Bytes

pub record Wallet : Type 0 where
  pub keypairs : List Keypair
  pub label : Bytes
  pub path : Option Bytes
  pub password : Option Bytes

-- `hex`, `bincode` on the keys and the label, and `serde_json` on the file; a failure is `none`.
pub record Codec (Text : Type 0) : Type 0 where
  pub hex_encode : Bytes → Bytes
  pub hex_decode : Bytes → Option Bytes
  pub serialize : List Bytes × Bytes → Bytes
  pub deserialize : Bytes → Option (List Bytes × Bytes)
  pub print : WalletFile → Text
  pub parse : Text → Option WalletFile

-- What they document: each decodes what it has encoded.
pub record IsFaithful {Text : Type 0} (codec : Codec Text) : Type 0 where
  pub hex_decode-hex_encode :
      (bytes : Bytes) → codec.hex_decode (codec.hex_encode bytes) ≡ some bytes
  pub deserialize-serialize :
      (plain : List Bytes × Bytes) → codec.deserialize (codec.serialize plain) ≡ some plain
  pub parse-print : (file : WalletFile) → codec.parse (codec.print file) ≡ some file

-- The texts of the errors.
pub data FileError : Type 0 where
  password_required : FileError
  missing_salt bad_salt missing_nonce bad_nonce missing_ciphertext bad_ciphertext : FileError
  invalid_nonce_length corrupt_wallet_data no_keys : FileError
  cipher : CipherError → FileError

abbrev pub wallet_version : ℕ
wallet_version = 1

-- The random numbers of one call: `OsRng`, for a key pair, a salt of 16 bytes and a nonce of 12.
pub record Random : Type 0 where
  pub secret : Bytes
  pub salt : Bytes
  pub nonce : Bytes

-- `ok_or`
unfoldable pub ok_or : {A : Type 0} → Option A → FileError → Result FileError A
ok_or none e = err e
ok_or (some a) e = ok a

-- `map_err` on the result of `decrypt_data`
unfoldable pub or_cipher : {A : Type 0} → Result CipherError A → Result FileError A
or_cipher (ok a) = ok a
or_cipher (err e) = err (cipher e)

unfoldable pub is_encrypted : Wallet → Bool
is_encrypted wallet = elim wallet.password [ none ↦ false | some _ ↦ true ]

abbrev pub Disk : Type 0 → Type 0
Disk Text = Map Bytes Text

unfoldable pub new : Bytes → Random → Wallet
new label random = record {
  keypairs = from_secret_bytes random.secret ∷ [];
  label = label;
  path = none;
  password = none;
}

module _ {Text : Type 0} (ext : Externals) (codec : Codec Text) where
  unfoldable pub to_wallet_file : Random → Wallet → WalletFile
  to_wallet_file random wallet =
      let keys = map secret_bytes wallet.keypairs in
      elim wallet.password [
        | none ↦ record {
          version = wallet_version;
          encrypted = false;
          keys = keys;
          label = wallet.label;
          salt = none;
          nonce = none;
          ciphertext = none;
        }
        | some password ↦
            let key = derive_key ext password random.salt in
            let plaintext = codec.serialize (keys, wallet.label) in
            let encoded = codec.hex_encode (encrypt_data ext plaintext key random.nonce) in
            record {
              version = wallet_version;
              encrypted = true;
              keys = [];
              label = [];
              salt = some (codec.hex_encode random.salt);
              nonce = some (codec.hex_encode random.nonce);
              ciphertext = some encoded;
            }
      ]

  -- The branch of `from_wallet_file` for an encrypted file.
  unfoldable pub open_encrypted : WalletFile → Option Bytes → Result FileError Wallet
  unfolding ok_or or_cipher
  open_encrypted wf supplied = do
    password ← ok_or supplied password_required
    salt_text ← ok_or wf.salt missing_salt
    salt ← ok_or (codec.hex_decode salt_text) bad_salt
    nonce_text ← ok_or wf.nonce missing_nonce
    nonce_bytes ← ok_or (codec.hex_decode nonce_text) bad_nonce
    ciphertext_text ← ok_or wf.ciphertext missing_ciphertext
    ciphertext ← ok_or (codec.hex_decode ciphertext_text) bad_ciphertext
    fail_if (not (nat_eq (length nonce_bytes) 12)) invalid_nonce_length
    let key = derive_key ext password salt
    plaintext ← or_cipher (decrypt_data ext ciphertext key nonce_bytes)
    (keys, label) ← ok_or (codec.deserialize plaintext) corrupt_wallet_data
    ok (record {
      keypairs = map from_secret_bytes keys;
      label = label;
      path = none;
      password = some password;
    })

  unfoldable pub from_wallet_file : WalletFile → Option Bytes → Result FileError Wallet
  from_wallet_file wf password = elim wf.encrypted [
    | true ↦ open_encrypted wf password
    | false ↦ elim (is_empty wf.keys) [
      | true ↦ err no_keys
      | false ↦ ok (record {
        keypairs = map from_secret_bytes wf.keys;
        label = wf.label;
        path = none;
        password = none;
      })
    ]
  ]

  unfoldable pub save : Random → Wallet → Disk Text → Disk Text
  save random wallet disk = elim wallet.path [
    | none ↦ disk
    | some path ↦ insert path (codec.print (to_wallet_file random wallet)) disk
  ]

  -- What is made where no file can be read.
  unfoldable pub create_at :
      Bytes → Bytes → Option Bytes → Random → Disk Text → Result FileError (Wallet × Disk Text)
  create_at path label password random disk =
      let wallet = record (new label random) { path = some path; password = password } in
      ok (wallet, save random wallet disk)

  -- Where the file is a wallet's that cannot be opened the process exits, which is an error here. A
  -- text that is no wallet's is taken for none, as is a file that cannot be read.
  unfoldable pub load_or_create_with_password :
      Bytes → Bytes → Option Bytes → Random → Disk Text → Result FileError (Wallet × Disk Text)
  load_or_create_with_password path label password random disk = elim (get disk path) [
    | none ↦ create_at path label password random disk
    | some text ↦ elim (codec.parse text) [
      | none ↦ create_at path label password random disk
      | some wf ↦ do
        wallet ← from_wallet_file wf password
        ok (record wallet { path = some path; password = password }, disk)
    ]
  ]

  unfoldable pub set_password : Bytes → Random → Wallet → Disk Text → Wallet × Disk Text
  set_password password random wallet disk =
      let wallet' = record wallet { password = some password } in
      (wallet', save random wallet' disk)

  unfoldable pub remove_password : Random → Wallet → Disk Text → Wallet × Disk Text
  remove_password random wallet disk =
      let wallet' = record wallet { password = none } in (wallet', save random wallet' disk)

  -- `new_address`; the address is that of the new key pair.
  unfoldable pub new_address : Random → Wallet → Disk Text → Wallet × Disk Text
  new_address random wallet disk =
      let wallet' = record wallet {
        keypairs = wallet.keypairs ++ from_secret_bytes random.secret ∷ [];
      } in
      (wallet', save random wallet' disk)
