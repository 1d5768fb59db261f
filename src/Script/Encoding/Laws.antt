-- ===== src/Script/Encoding/Laws.antt =====
-- Each parser of core/script.rs accepts exactly what its builder writes.
use equiforge.Prelude.{
  ℕ, ◌≡◌, arith, [], ◌∷◌, ◌++◌, Bytes, length, take, drop, get_or, ok, err, if◌then◌else◌, ◌||◌,
  take-append_at, drop-append_at, length-append, drop-cons, drop-drop, drop_all, get_or-append_at,
  take_all, length-drop, take-append-drop,
}
use equiforge.Types.{Hash256, IsHash}
use equiforge.Script.Encoding.{
  non_standard, bad_encoding, differs, op_dup, op_hash256, op_equalverify, op_checksig,
  op_pushdata1, script_p2pkh, script_sig_p2pkh, parse_script_sig_p2pkh, parse_script_pubkey_p2pkh,
}

-- A standard locking script is parsed back to the hash that it was built from.
pub parse-script_p2pkh :
    (h : Hash256) → IsHash h → parse_script_pubkey_p2pkh (script_p2pkh h) ≡ ok h
unfolding parse_script_pubkey_p2pkh script_p2pkh
parse-script_p2pkh h len =
    let tail = op_equalverify ∷ op_checksig ∷ [] in
    ground (
      arith,
      length-append h tail,
      get_or-append_at 32 0 h tail 0 len,
      get_or-append_at 32 1 h tail 0 len,
      take-append_at 32 h tail len,
    )

-- A standard unlocking script is parsed back to its signature and its public key.
pub parse-script_sig_p2pkh :
    (sig pubkey : Bytes)
    → length sig ≡ 64
    → length pubkey ≡ 32
    → parse_script_sig_p2pkh (script_sig_p2pkh sig pubkey) ≡ ok (sig, pubkey)
unfolding parse_script_sig_p2pkh script_sig_p2pkh
parse-script_sig_p2pkh sig pubkey hs hp =
    let tail : Bytes = op_pushdata1 ∷ 32 ∷ pubkey in
    let size : length (sig ++ tail) ≡ 98 = omega (arith, length-append sig tail) in
    let key : take 32 (drop 66 (sig ++ tail)) ≡ pubkey =
      rw (← drop-drop 64 2 (sig ++ tail), drop-append_at 64 sig tail hs)
        (take_all 32 pubkey (omega arith)) in
    rw (
      size,
      get_or-append_at 64 0 sig tail 0 hs,
      get_or-append_at 64 1 sig tail 0 hs,
      take-append_at 64 sig tail hs,
      key,
    )

-- What the tests of the two parsers have found when a script passes them.
pubkey_tests :
    (n a b c d e f : ℕ) (r h : Bytes)
    → (if differs n 38
        then err non_standard
        else if differs a op_dup
            || differs b op_hash256
            || differs c op_pushdata1
            || differs d 32
            || differs e op_equalverify
            || differs f op_checksig
        then err non_standard
        else ok r)
      ≡ ok h
    → (n ≡ 38) × (a ∷ b ∷ c ∷ d ∷ (r ++ e ∷ f ∷ []) ≡ script_p2pkh h)
unfolding script_p2pkh
pubkey_tests n a b c d e f r h p = ground arith

sig_tests :
    (n a b c d : ℕ) (r : Bytes × Bytes) (sig pubkey : Bytes)
    → (if differs n 100
        then err bad_encoding
        else if differs a op_pushdata1 || differs b 64
        then err bad_encoding
        else if differs c op_pushdata1 || differs d 32
        then err bad_encoding
        else ok r)
      ≡ ok (sig, pubkey)
    → (n ≡ 100) × (a ∷ b ∷ (r.0 ++ c ∷ d ∷ r.1) ≡ script_sig_p2pkh sig pubkey)
unfolding script_sig_p2pkh
sig_tests n a b c d r sig pubkey p = ground arith

-- Only the script that the builder writes is parsed to a given hash.
pub parse_script_pubkey_only :
    (s : Bytes) (h : Hash256) → parse_script_pubkey_p2pkh s ≡ ok h → s ≡ script_p2pkh h
unfolding parse_script_pubkey_p2pkh
parse_script_pubkey_only s h e =
    let b = λ (i : ℕ). get_or s i 0 in
    let (size, built) =
      pubkey_tests (length s) (b 0) (b 1) (b 2) (b 3) (b 36) (b 37) (take 32 (drop 4 s)) h e in
    let front : s ≡ b 0 ∷ b 1 ∷ b 2 ∷ b 3 ∷ drop 4 s = cc (
      drop-cons 0 s 0 (omega arith),
      drop-cons 1 s 0 (omega arith),
      drop-cons 2 s 0 (omega arith),
      drop-cons 3 s 0 (omega arith),
    ) in
    let back : drop 36 s ≡ b 36 ∷ b 37 ∷ [] = cc (
      drop-cons 36 s 0 (omega arith),
      drop-cons 37 s 0 (omega arith),
      drop_all 38 s (omega arith),
    ) in
    cc (front, back, built, take-append-drop 32 (drop 4 s), drop-drop 4 32 s)

-- Only the script that the builder writes is parsed to a given signature and key.
pub parse_script_sig_only :
    (s sig pubkey : Bytes)
    → parse_script_sig_p2pkh s ≡ ok (sig, pubkey)
    → s ≡ script_sig_p2pkh sig pubkey
unfolding parse_script_sig_p2pkh
parse_script_sig_only s sig pubkey e =
    let b = λ (i : ℕ). get_or s i 0 in
    let (size, built) =
      sig_tests (length s) (b 0) (b 1) (b 66) (b 67) (take 64 (drop 2 s), take 32 (drop 68 s)) sig
        pubkey e in
    let front : s ≡ b 0 ∷ b 1 ∷ drop 2 s =
      cc (drop-cons 0 s 0 (omega arith), drop-cons 1 s 0 (omega arith)) in
    let key : take 32 (drop 68 s) ≡ drop 68 s =
      take_all 32 (drop 68 s) (omega (arith, length-drop 68 s)) in
    let back : drop 66 s ≡ b 66 ∷ b 67 ∷ drop 68 s =
      cc (drop-cons 66 s 0 (omega arith), drop-cons 67 s 0 (omega arith)) in
    cc (front, back, built, key, take-append-drop 64 (drop 2 s), drop-drop 2 64 s)
