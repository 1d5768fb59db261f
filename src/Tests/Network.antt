-- ===== src/Tests/Network.antt =====
-- Peers, a mempool and a locator at concrete inputs.
use equiforge.Prelude.{
  ℕ, ◌≡◌, ◌≢◌, refl, arith, true, false, [], ◌∷◌, Bytes, ok, some, none, ltb, bytes_instance,
  bytes_eq, le_bytes,
}
use equiforge.Prelude.Maps.{get, insert, contains_key}
use equiforge.Types.{outpoint_eq}
use equiforge.Types.Externals.{tx_size, header_hash, double_sha256}
use equiforge.Crypto.Hashes.{txid_v1, tx_signing_hash_v1, pubkey_bytes_to_hash, verify_signature}
use equiforge.Types.Coinbase.{is_coinbase, total_output}
use equiforge.Script.Spend.{validate_p2pkh_spend}
use equiforge.Script.Encoding.{script_sig_p2pkh, parse_script_pubkey_p2pkh, parse_script_sig_p2pkh}
use equiforge.Chain.Validate.{authorize, validate_transaction}
use equiforge.Chain.State.{Chain}
use equiforge.Chain.Genesis.{new, create_genesis_block}
use equiforge.Chain.Headers.{validate_transaction_for_mempool, genesis_hash}
use equiforge.Network.Peers.{
  PeerScoreboard, BanEntry, invalid_block, spam_ping, record_offense, is_banned, ip_of, strikes,
  strikes_of,
}
use equiforge.Network.Peers.Laws.{record_offense_bans}
use equiforge.Network.Mempool.{Mempool, validate_and_add, add_with_fee, fee_of, fee_rate_of}
use equiforge.Network.Mempool.Laws.{validate_and_add_sound}
use equiforge.Tests.Toy.{toy, toy_env, whole}
use equiforge.Tests.Utxos.{wallet, payment}
use equiforge.Tests.Blocks.{at_start, hash_of}

-- "1:2", "1:3" and "9:2"
abbrev pub peer : Bytes
peer = 49 ∷ 58 ∷ 50 ∷ []

abbrev same_host : Bytes
same_host = 49 ∷ 58 ∷ 51 ∷ []

abbrev elsewhere : Bytes
elsewhere = 57 ∷ 58 ∷ 50 ∷ []

abbrev pub board : PeerScoreboard
board = record {
  strikes = (49 ∷ [], 19) ∷ [];
  bans = (57 ∷ [], record { banned_until = 50; reason = spam_ping }) ∷ [];
}

same_ip : ip_of same_host ≡ ip_of peer
unfolding ip_of
same_ip = refl

other_ip : ip_of elsewhere ≢ ip_of peer
unfolding ip_of
other_ip = λ e. cc

now_banned : (record_offense 100 peer invalid_block board).0 ≡ true
unfolding record_offense strikes_of get bytes_eq ip_of strikes
now_banned = refl

record_offense_bans_example :
    is_banned 200 same_host (record_offense 100 peer invalid_block board).1 ≡ ltb 200 1900
record_offense_bans_example =
    record_offense_bans 100 200 peer same_host invalid_block board (omega arith) same_ip now_banned

no_other : get board.bans (57 ∷ []) ≡ some (record { banned_until = 50; reason = spam_ping })
unfolding get bytes_eq
no_other = refl

one_ban : get {K = Bytes} {V = BanEntry} [] (57 ∷ []) ≡ none
unfolding get
one_ban = refl

abbrev funded : Chain ℕ ℕ
funded = record at_start { utxo_set = wallet; height = 6 }

abbrev pub pool : Mempool ℕ
pool = record { entries = []; max_size = 3 }

accepted : (validate_and_add toy_env funded payment pool).0 ≡ ok (txid_v1 toy payment)
unfolding validate_and_add validate_transaction_for_mempool is_coinbase validate_transaction
    authorize tx_signing_hash_v1 script_sig_p2pkh get outpoint_eq bytes_eq validate_p2pkh_spend
    parse_script_pubkey_p2pkh parse_script_sig_p2pkh double_sha256 pubkey_bytes_to_hash
    verify_signature le_bytes total_output
accepted = refl

validate_and_add_sound_example :
    (txid_v1 toy payment ≡ txid_v1 toy payment)
    × (contains_key pool.entries (txid_v1 toy payment) ≡ false)
    × (validate_transaction_for_mempool toy_env funded payment ≡ ok tt)
    × (get (validate_and_add toy_env funded payment pool).1.entries (txid_v1 toy payment)
        ≡ some (record {
          tx = payment;
          fee = fee_of toy_env funded payment;
          size = tx_size toy payment;
          fee_rate = fee_rate_of toy_env (fee_of toy_env funded payment) (tx_size toy payment);
        }))
validate_and_add_sound_example =
    validate_and_add_sound toy_env funded payment pool (txid_v1 toy payment) accepted

abbrev holding : Mempool ℕ
holding = (add_with_fee toy_env payment 7 pool).1

asymmetric : (a b : ℕ) → whole.less a b ≡ true → whole.less b a ≡ false
asymmetric a b h = ground arith

genesis_known : genesis_hash toy_env at_start ≡ hash_of 7
unfolding genesis_hash get new create_genesis_block header_hash le_bytes insert
genesis_known = refl
