-- ===== src/Tests/Format.antt =====
-- A toy encoding of the stored types, which decodes what it has encoded.
use equiforge.Prelude.{
  ℕ, zero, suc, ◌≡◌, refl, ap, append_assoc, append-nil, Bool, true, false, List, [], ◌∷◌, ◌++◌,
  Bytes, Option, some, length,
}
use equiforge.Types.{OutPoint, TxInput, TxOutput, Transaction, BlockHeader, Block}
use equiforge.Chain.Stored.{StoredUtxoEntry, StoredBlockUndo}
use equiforge.Storage.Sled.{Bincode, IsFaithful}

-- A writer, and a reader that leaves what follows.
pub record Format (A : Type 0) : Type 0 where
  pub write : A → Bytes
  pub read : Bytes → A × Bytes
  pub read-write : (a : A) (after : Bytes) → read (write a ++ after) ≡ (a, after)

abbrev read_number : Bytes → ℕ × Bytes
read_number [] = (0, [])
read_number (b ∷ bs) = (b, bs)

abbrev number : Format ℕ
number = record { write = λ n. n ∷ []; read = read_number; read-write = λ n after. refl }

module _ {A B : Type 0} where
  abbrev pair : Format A → Format B → Format (A × B)
  pair f g = record {
    write = λ p. f.write p.0 ++ g.write p.1;
    read = λ bs.
        let first = f.read bs in let second = g.read first.1 in ((first.0, second.0), second.1);
    read-write = λ p after.
        rw (append_assoc, f.read-write p.0 (g.write p.1 ++ after), g.read-write p.1 after) refl;
  }

  -- The format of a type that goes into another and comes back.
  abbrev through :
      (into : A → B) (back : B → A) → ((a : A) → back (into a) ≡ a) → Format B → Format A
  through into back same f = record {
    write = λ a. f.write (into a);
    read = λ bs. let found = f.read bs in (back found.0, found.1);
    read-write = λ a after. rw (f.read-write (into a) after, same a) refl;
  }

module _ {A : Type 0} (f : Format A) where
  abbrev write_all : List A → Bytes
  write_all [] = []
  write_all (x ∷ xs) = f.write x ++ write_all xs

  abbrev read_times : ℕ → Bytes → List A × Bytes
  read_times zero bs = ([], bs)
  read_times (suc n) bs =
      let first = f.read bs in let others = read_times n first.1 in (first.0 ∷ others.0, others.1)

  pub read-write_all :
      (xs : List A) (after : Bytes) → read_times (length xs) (write_all xs ++ after) ≡ (xs, after)
  read-write_all [] after = refl
  read-write_all (x ∷ xs) after =
      rw (append_assoc, f.read-write x (write_all xs ++ after), read-write_all xs after) refl

  abbrev read_list : Bytes → List A × Bytes
  read_list [] = ([], [])
  read_list (n ∷ bs) = read_times n bs

  abbrev list : Format (List A)
  list = record {
    write = λ xs. length xs ∷ write_all xs;
    read = read_list;
    read-write = read-write_all;
  }

abbrev bytes : Format Bytes
bytes = list number

abbrev bit : Bool → ℕ
bit true = 1
bit false = 0

abbrev set_bit : ℕ → Bool
set_bit zero = false
set_bit (suc n) = true

pub bit_again : (b : Bool) → set_bit (bit b) ≡ b
bit_again true = refl
bit_again false = refl

abbrev boolean : Format Bool
boolean = through bit set_bit bit_again number

abbrev outpoint : Format OutPoint
outpoint =
    through (λ o. (o.txid, o.vout)) (λ p. record { txid = p.0; vout = p.1 }) (λ o. refl)
      (pair bytes number)

abbrev input : Format TxInput
input =
    through (λ i. (i.previous_output, (i.signature, (i.pubkey, (i.script_sig, i.sequence)))))
      (λ p. record {
        previous_output = p.0;
        signature = p.1.0;
        pubkey = p.1.1.0;
        script_sig = p.1.1.1.0;
        sequence = p.1.1.1.1;
      })
      (λ i. refl) (pair outpoint (pair bytes (pair bytes (pair bytes number))))

abbrev output : Format TxOutput
output =
    through (λ o. (o.amount, (o.pubkey_hash, o.script_pubkey)))
      (λ p. record { amount = p.0; pubkey_hash = p.1.0; script_pubkey = p.1.1 }) (λ o. refl)
      (pair number (pair bytes bytes))

abbrev transaction : Format Transaction
transaction =
    through (λ t. (t.version, (t.inputs, (t.outputs, t.lock_time))))
      (λ p. record { version = p.0; inputs = p.1.0; outputs = p.1.1.0; lock_time = p.1.1.1 })
      (λ t. refl) (pair number (pair (list input) (pair (list output) number)))

abbrev header : Format BlockHeader
header =
    through
      (λ h. (
        h.version,
        (h.prev_hash, (h.merkle_root, (h.timestamp, (h.difficulty_target, (h.nonce, h.height))))),
      ))
      (λ p. record {
        version = p.0;
        prev_hash = p.1.0;
        merkle_root = p.1.1.0;
        timestamp = p.1.1.1.0;
        difficulty_target = p.1.1.1.1.0;
        nonce = p.1.1.1.1.1.0;
        height = p.1.1.1.1.1.1;
      })
      (λ h. refl)
      (pair number (pair bytes (pair bytes (pair number (pair number (pair number number))))))

abbrev block : Format Block
block =
    through (λ b. (b.header, b.transactions)) (λ p. record { header = p.0; transactions = p.1 })
      (λ b. refl) (pair header (list transaction))

abbrev utxo : Format StoredUtxoEntry
utxo =
    through (λ e. (e.amount, (e.pubkey_hash, (e.script_pubkey, (e.height, e.is_coinbase)))))
      (λ p. record {
        amount = p.0;
        pubkey_hash = p.1.0;
        script_pubkey = p.1.1.0;
        height = p.1.1.1.0;
        is_coinbase = p.1.1.1.1;
      })
      (λ e. refl) (pair number (pair bytes (pair bytes (pair number boolean))))

abbrev undo : Format StoredBlockUndo
undo =
    through (λ u. (u.spent, u.created)) (λ p. record { spent = p.0; created = p.1 }) (λ u. refl)
      (pair (list (pair outpoint utxo)) (list outpoint))

abbrev only : {A : Type 0} → Format A → Bytes → Option A
only f bs = some (f.read bs).0

only-write : {A : Type 0} (f : Format A) (a : A) → only f (f.write a) ≡ some a
only-write f a =
    let whole : f.read (f.write a ++ []) ≡ (a, []) = f.read-write a [] in
    ap (λ p. some p.0) (rw append-nil at whole)

abbrev pub toy_code : Bincode ℕ
toy_code = record {
  block = block.write;
  to_block = only block;
  header = header.write;
  to_header = only header;
  utxo = utxo.write;
  to_utxo = only utxo;
  undo = undo.write;
  to_undo = only undo;
  timestamps = bytes.write;
  to_timestamps = only bytes;
  float = λ n. n ∷ 0 ∷ 0 ∷ 0 ∷ 0 ∷ 0 ∷ 0 ∷ 0 ∷ [];
  to_float = λ bs. (read_number bs).0;
}

pub toy_code-IsFaithful : IsFaithful toy_code
toy_code-IsFaithful = record {
  block = only-write block;
  header = only-write header;
  utxo = only-write utxo;
  undo = only-write undo;
  timestamps = only-write bytes;
  float = λ n. refl;
  length-float = λ n. refl;
}
