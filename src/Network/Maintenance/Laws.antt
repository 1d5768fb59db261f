-- ===== src/Network/Maintenance/Laws.antt =====
-- What a round of maintenance keeps, and to whom the node connects.
use equiforge.Prelude.{
  ℕ, ◌≤◌, ◌≡◌, ◌≢◌, arith, true, false, ◌&&◌, Bool-cases, inl, inr, List, [], ◌∷◌, Bytes, All,
  All-take, ltb, length, nat_eq, ◌<◌, length-take, bytes_eq_iff, ◌-◌, ◌-u64◌, bytes_instance,
}
use equiforge.Prelude.Maps.{Map, HasOnce}
use equiforge.Params.Peers.{max_outbound_peers}
use equiforge.Types.{Hash256}
use equiforge.Chain.State.{Env}
use equiforge.Network.Peers.{PeerScoreboard, is_banned, cleanup}
use equiforge.Network.Peers.Laws.{is_banned-cleanup}
use equiforge.Network.Compact.{PendingCompact, has_hash}
use equiforge.Network.Node.{NodeState, PeerInfo}
use equiforge.Network.Serve.{listen_addresses}
use equiforge.Network.Sync.{our_address}
use equiforge.Network.Maintenance.{
  expire_pending, prune_stale, is_candidate, candidates_in, discovered, maintain, max_anchors,
}

-- A pending block came within the last 30 seconds, a peer was seen within five minutes.
abbrev pub IsFresh : ℕ → Hash256 × PendingCompact → Type 0
IsFresh now (h, pc) = now - pc.created_at ≤ 30

abbrev pub IsSeen : ℕ → Bytes × PeerInfo → Type 0
IsSeen now (addr, info) = now -u64 info.last_seen ≤ 300

expire_pending_lem :
    (now : ℕ) (m : Map Hash256 PendingCompact)
    → All (IsFresh now) (expire_pending now m) × (length (expire_pending now m) ≤ length m)
unfolding expire_pending
expire_pending_lem now [] = (tt, omega arith)
expire_pending_lem now ((h, pc) ∷ m) =
    let (fresh, shorter) = expire_pending_lem now m in
    elim (Bool-cases (ltb 30 (now - pc.created_at))) [
      | inl old ↦ rw (expire_pending, old) (fresh, omega (arith, shorter))
      | inr new ↦ rw (expire_pending, new) ((ground arith, fresh), omega (arith, shorter))
    ]

prune_stale-IsSeen : (now : ℕ) (m : Map Bytes PeerInfo) → All (IsSeen now) (prune_stale now m)
unfolding prune_stale
prune_stale-IsSeen now [] = tt
prune_stale-IsSeen now ((addr, info) ∷ m) = elim (Bool-cases (ltb 300 (now -u64 info.last_seen))) [
  | inl stale ↦ rw stale (prune_stale-IsSeen now m)
  | inr seen ↦ rw seen (ground arith, prune_stale-IsSeen now m)
]

-- An address is not ours, no peer listens on it, and it is not banned.
abbrev pub IsFree : ℕ → Bytes → List Bytes → PeerScoreboard → Bytes → Type 0
IsFree now ours connected board addr =
    (addr ≢ ours) × (has_hash addr connected ≡ false) × (is_banned now addr board ≡ false)

candidate-IsFree :
    (now : ℕ) (ours : Bytes) (connected : List Bytes) (board : PeerScoreboard) (addr : Bytes)
    → is_candidate now ours connected board addr ≡ true
    → IsFree now ours connected board addr
unfolding is_candidate
candidate-IsFree now ours connected board addr fit =
    (λ same. absurd (ground (arith, bytes_eq_iff addr ours)), ground arith, ground arith)

candidates_in-IsFree :
    (now : ℕ) (ours : Bytes) (connected : List Bytes) (board : PeerScoreboard) (known : List Bytes)
    → All (IsFree now ours connected board) (candidates_in now ours connected board known)
unfolding candidates_in is_candidate
candidates_in-IsFree now ours connected board [] = tt
candidates_in-IsFree now ours connected board (addr ∷ known) =
    elim (Bool-cases (is_candidate now ours connected board addr)) [
      | inr unfit ↦ rw unfit (candidates_in-IsFree now ours connected board known)
      | inl fit ↦ rw fit (
        candidate-IsFree now ours connected board addr fit,
        candidates_in-IsFree now ours connected board known,
      )
    ]

IsFree-cleanup :
    (now : ℕ) (ours : Bytes) (connected : List Bytes) (board : PeerScoreboard) (addrs : List Bytes)
    → HasOnce board.bans
    → All (IsFree now ours connected (cleanup now board)) addrs
    → All (IsFree now ours connected board) addrs
IsFree-cleanup now ours connected board [] once h = tt
IsFree-cleanup now ours connected board (addr ∷ addrs) once ((other, apart, free), hs) = (
  (other, apart, (rw⁻¹ (is_banned-cleanup now now addr board once (omega arith)) free)),
  IsFree-cleanup now ours connected board addrs once hs,
)

module _ {F S : Type 0} (env : Env F S) where
  discovered-IsFree :
      (now : ℕ) (node : NodeState F S)
      → All
          (IsFree now (our_address node.listen_port) (listen_addresses node.peers) node.scoreboard)
          (discovered env now node)
        × (length (discovered env now node) ≤ 3)
  unfolding discovered
  discovered-IsFree now node =
      let ours = our_address node.listen_port in
      let connected = listen_addresses node.peers in
      let found = candidates_in now ours connected node.scoreboard node.known_addresses in
      let free = candidates_in-IsFree now ours connected node.scoreboard node.known_addresses in
      let few = ltb 0 (length node.peers) && ltb (length node.peers) max_outbound_peers in
      elim (Bool-cases few) [
        | inr enough ↦ rw enough (tt, omega arith)
        | inl looking ↦ rw looking (
          All-take (IsFree now ours connected node.scoreboard) 3 found free,
          omega (arith, length-take 3 found),
        )
      ]

  -- A round of maintenance of a node with peers connects to at most three addresses, none of them
  -- ours, banned, or one that a peer listens on, if every address has one ban at most; it leaves
  -- compact blocks of the last 30 seconds, and no more of them, and peers seen in the last five
  -- minutes, and names at most four anchors.
  pub maintain_lawful :
      (now : ℕ) (seeds : List Bytes) (node : NodeState F S)
      → HasOnce node.scoreboard.bans
      → 0 < length node.peers
      → let (dialled, anchors, node') = maintain env now seeds node in
        (All
          (IsFree now (our_address node.listen_port) (listen_addresses node.peers) node.scoreboard)
          dialled)
        × (length dialled ≤ 3)
        × All (IsFresh now) node'.pending_compacts
        × (length node'.pending_compacts ≤ length node.pending_compacts)
        × All (IsSeen now) node'.peers
        × (length anchors ≤ 4)
  unfolding maintain
  maintain_lawful now seeds node once company =
      let (fresh, shorter) = expire_pending_lem now node.pending_compacts in
      let cleaned = record node {
        scoreboard = cleanup now node.scoreboard;
        pending_compacts = expire_pending now node.pending_compacts;
      } in
      let (free, few) = discovered-IsFree now cleaned in
      let alone : nat_eq (length node.peers) 0 ≡ false = ground arith in
      let ours = our_address node.listen_port in
      let connected = listen_addresses node.peers in
      rw alone (
        IsFree-cleanup now ours connected node.scoreboard (discovered env now cleaned) once free,
        few,
        fresh,
        shorter,
        prune_stale-IsSeen now node.peers,
        omega (arith, length-take max_anchors (listen_addresses (prune_stale now node.peers))),
      )
