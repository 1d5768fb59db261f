-- ===== src/Network/Peers.antt =====
-- network/mod.rs: the strikes and bans of peers, and the rate limiter. Addresses are the bytes of
-- their text, and the clock's seconds are an argument.
pub mod Laws
use equiforge.Prelude.{
  ℕ, ◌+◌, ◌-◌, ◌%◌, ◌/◌, Bool, true, false, List, [], ◌∷◌, Option, none, some, Bytes, nat_eq, ltb,
  leb, if◌then◌else◌, max, ◌+u64◌, u32_mod, bytes_instance, length,
}
use equiforge.Prelude.Maps.{Map, get, insert, remove}

abbrev pub ban_threshold : ℕ
ban_threshold = 20

abbrev pub ban_duration : ℕ
ban_duration = 1800

pub data Offense : Type 0 where
  invalid_block invalid_transaction malformed_message spam_ping : Offense

unfoldable pub strikes : Offense → ℕ
strikes invalid_block = 2
strikes invalid_transaction = 1
strikes malformed_message = 3
strikes spam_ping = 1

-- The reason is the offense that the text is written from.
pub record BanEntry : Type 0 where
  pub banned_until : ℕ
  pub reason : Offense

pub record PeerScoreboard : Type 0 where
  pub strikes : Map Bytes ℕ
  pub bans : Map Bytes BanEntry

-- `addr.split(':').next()`
unfoldable pub ip_of : Bytes → Bytes
ip_of [] = []
ip_of (c ∷ addr) = let further = ip_of addr in if nat_eq c 58 then [] else c ∷ further

-- `entry(ip).or_insert(0)`
unfoldable pub strikes_of : Bytes → PeerScoreboard → ℕ
strikes_of ip board = elim (get board.strikes ip) [ none ↦ 0 | some count ↦ count ]

-- Whether the peer is banned now, and the board after. The count is a `u32`, and wraps.
unfoldable pub record_offense : ℕ → Bytes → Offense → PeerScoreboard → Bool × PeerScoreboard
unfolding strikes_of
record_offense now addr offense board =
    let ip = ip_of addr in
    let count = (strikes_of ip board + strikes offense) % u32_mod in
    let struck = record board { strikes = insert ip count board.strikes } in
    let entry : BanEntry = record { banned_until = now +u64 ban_duration; reason = offense } in
    if leb ban_threshold count
    then (true, record struck { bans = insert ip entry board.bans })
    else (false, struck)

unfoldable pub is_banned : ℕ → Bytes → PeerScoreboard → Bool
is_banned now addr board = elim (get board.bans (ip_of addr)) [
  | none ↦ false
  | some entry ↦ ltb now entry.banned_until
]

-- The addresses whose bans are over.
unfoldable pub expired : ℕ → Map Bytes BanEntry → List Bytes
expired now [] = []
expired now ((ip, entry) ∷ bans) =
    let further = expired now bans in if leb entry.banned_until now then ip ∷ further else further

-- The loop over the addresses.
unfoldable pub remove_all : {V : Type 0} → List Bytes → Map Bytes V → Map Bytes V
remove_all [] m = m
remove_all (ip ∷ ips) m = remove_all ips (remove ip m)

unfoldable pub cleanup : ℕ → PeerScoreboard → PeerScoreboard
unfolding expired remove_all
cleanup now board =
    let over = expired now board.bans in
    record { strikes = remove_all over board.strikes; bans = remove_all over board.bans }

unfoldable pub count_active : ℕ → Map Bytes BanEntry → ℕ
count_active now [] = 0
count_active now ((_, entry) ∷ bans) =
    let others = count_active now bans in if ltb now entry.banned_until then others + 1 else others

unfoldable pub ban_count : ℕ → PeerScoreboard → ℕ
unfolding count_active
ban_count now board = count_active now board.bans

pub record PeerRateLimiter : Type 0 where
  pub bytes_sent : ℕ
  pub bytes_recv : ℕ
  pub window_start : ℕ
  pub max_send_rate : ℕ
  pub max_recv_rate : ℕ

unfoldable pub new_limiter : ℕ → PeerRateLimiter
new_limiter now = record {
  bytes_sent = 0;
  bytes_recv = 0;
  window_start = now;
  max_send_rate = 10485760;
  max_recv_rate = 10485760;
}

unfoldable pub elapsed_secs : ℕ → PeerRateLimiter → ℕ
elapsed_secs now limiter = now - limiter.window_start

unfoldable pub maybe_reset_window : ℕ → PeerRateLimiter → PeerRateLimiter
unfolding elapsed_secs
maybe_reset_window now limiter =
    let fresh = record limiter { bytes_sent = 0; bytes_recv = 0; window_start = now } in
    if leb 10 (elapsed_secs now limiter) then fresh else limiter

unfoldable pub record_send : ℕ → ℕ → PeerRateLimiter → PeerRateLimiter
unfolding maybe_reset_window
record_send now bytes limiter =
    let l = maybe_reset_window now limiter in record l { bytes_sent = l.bytes_sent +u64 bytes }

unfoldable pub record_recv : ℕ → ℕ → PeerRateLimiter → PeerRateLimiter
unfolding maybe_reset_window
record_recv now bytes limiter =
    let l = maybe_reset_window now limiter in record l { bytes_recv = l.bytes_recv +u64 bytes }

unfoldable pub is_send_limited : ℕ → PeerRateLimiter → Bool
unfolding elapsed_secs
is_send_limited now limiter =
    ltb limiter.max_send_rate (limiter.bytes_sent / max (elapsed_secs now limiter) 1)

unfoldable pub is_recv_limited : ℕ → PeerRateLimiter → Bool
unfolding elapsed_secs
is_recv_limited now limiter =
    ltb limiter.max_recv_rate (limiter.bytes_recv / max (elapsed_secs now limiter) 1)
