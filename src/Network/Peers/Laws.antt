-- ===== src/Network/Peers/Laws.antt =====
-- Bans last as long as they should, hit only their own address, and survive the clean-up.
use equiforge.Prelude.{
  ℕ, ◌+◌, ◌%◌, ◌≤◌, u32_mod, ◌<◌, ◌≡◌, ◌≢◌, refl, arith, Bool, true, false, ◌||◌, List, [], ◌∷◌,
  Option, none, some, Bytes, bytes_eq, bytes_eq_iff, leb, ltb, if◌then◌else◌, u64_mod,
  bytes_instance,
}
use equiforge.Prelude.Maps.{Map, HasOnce, get, remove, get-insert, get-remove}
use equiforge.Network.Peers.{
  Offense, BanEntry, PeerScoreboard, ip_of, strikes, strikes_of, record_offense, is_banned, expired,
  remove_all, cleanup, ban_duration,
}

-- An offense that bans a peer bans it for the ban's whole duration and no longer, under every port
-- of its address.
pub record_offense_bans :
    (now later : ℕ) (addr other : Bytes) (offense : Offense) (board : PeerScoreboard)
    → now + ban_duration < u64_mod
    → ip_of other ≡ ip_of addr
    → (record_offense now addr offense board).0 ≡ true
    → is_banned later other (record_offense now addr offense board).1
      ≡ ltb later (now + ban_duration)
unfolding record_offense is_banned
record_offense_bans now later addr other offense board fits same banned =
    let ip = ip_of addr in
    let entry : BanEntry = record {
      banned_until = (now + ban_duration) % u64_mod;
      reason = offense;
    } in
    ground (arith, get-insert ip (ip_of other) entry board.bans, bytes_eq_iff ip (ip_of other))

-- An offense changes neither the strikes nor the ban of any other address.
pub record_offense_elsewhere :
    (now later : ℕ) (addr other : Bytes) (offense : Offense) (board : PeerScoreboard)
    → ip_of other ≢ ip_of addr
    → (let board' = (record_offense now addr offense board).1 in
        (is_banned later other board' ≡ is_banned later other board)
        × (strikes_of (ip_of other) board' ≡ strikes_of (ip_of other) board))
unfolding record_offense is_banned strikes_of
record_offense_elsewhere now later addr other offense board apart =
    let ip = ip_of addr in
    let count = (strikes_of ip board + strikes offense) % u32_mod in
    let entry : BanEntry = record {
      banned_until = (now + ban_duration) % u64_mod;
      reason = offense;
    } in
    ground (
      arith,
      get-insert ip (ip_of other) entry board.bans,
      get-insert ip (ip_of other) count board.strikes,
      bytes_eq_iff ip (ip_of other),
    )

abbrev listed : Bytes → List Bytes → Bool
listed j [] = false
listed j (ip ∷ ips) = bytes_eq ip j || listed j ips

abbrev over : ℕ → Option BanEntry → Bool
over now none = false
over now (some entry) = leb entry.banned_until now

listed-expired :
    (now : ℕ) (j : Bytes) (bans : Map Bytes BanEntry)
    → HasOnce bans
    → listed j (expired now bans) ≡ over now (get bans j)
unfolding expired get
listed-expired now j [] once = refl
listed-expired now j ((ip, entry) ∷ bans) once =
    ground (arith, listed-expired now j bans once.1, bytes_eq_iff ip j, once.0)

get-remove_all :
    {V : Type 0} (j : Bytes) (ips : List Bytes) (m : Map Bytes V)
    → get (remove_all ips m) j ≡ (if listed j ips then none else get m j)
unfolding remove_all
get-remove_all j [] m = refl
get-remove_all j (ip ∷ ips) m =
    ground (arith, get-remove_all j ips (remove ip m), get-remove ip j m)

-- The clean-up lifts no ban that still runs, now or later.
pub is_banned-cleanup :
    (now later : ℕ) (addr : Bytes) (board : PeerScoreboard)
    → HasOnce board.bans
    → now ≤ later
    → is_banned later addr (cleanup now board) ≡ is_banned later addr board
unfolding is_banned cleanup
is_banned-cleanup now later addr board once order = ground (
  arith,
  get-remove_all (ip_of addr) (expired now board.bans) board.bans,
  listed-expired now (ip_of addr) board.bans once,
)
