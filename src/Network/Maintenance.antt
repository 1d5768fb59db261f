-- ===== src/Network/Maintenance.antt =====
-- network/mod.rs: the node's own work: `start_node` with its maintenance task, `connect_to_peer` up
-- to the connection, `broadcast_block` and `get_node_info`.
pub mod Laws
use equiforge.Prelude.{
  ℕ, ◌+◌, ◌-◌, Bool, true, false, not, ◌&&◌, ◌||◌, List, [], ◌∷◌, ◌++◌, Bytes, length, take, ltb,
  nat_eq, is_empty, bytes_eq, if◌then◌else◌, ◌-u64◌, ok, err,
}
use equiforge.Prelude.Maps.{Map}
use equiforge.Params.Peers.{max_peers, max_outbound_peers}
use equiforge.Types.{Hash256, Block}
use equiforge.Chain.State.{Env, Chain}
use equiforge.Network.Peers.{PeerScoreboard, is_banned, cleanup}
use equiforge.Network.Mempool.{Mempool}
use equiforge.Network.Compact.{PendingCompact, has_hash}
use equiforge.Network.Serve.{listen_addresses}
use equiforge.Network.Sync.{our_address}
use equiforge.Network.Node.{NodeState, PeerInfo, Effects, silent, relaying}
use equiforge.Network.Relay.{accept_block}

abbrev pub max_anchors : ℕ
max_anchors = 4

-- `NodeState::new` and `NodeState::open`, on the chain that they make
unfoldable pub new_node : {F S : Type 0} → Chain F S → ℕ → NodeState F S
new_node chain listen_port = record {
  chain = chain;
  mempool = record { entries = []; max_size = 10000 };
  peers = [];
  scoreboard = record { strikes = []; bans = [] };
  known_addresses = [];
  listen_port = listen_port;
  pending_compacts = [];
}

-- The seeds of the command line, and those of the network that are not among them.
unfoldable pub add_seeds : List Bytes → List Bytes → List Bytes
unfolding has_hash
add_seeds [] all_seeds = all_seeds
add_seeds (s ∷ seeds) all_seeds =
    add_seeds seeds (if has_hash s all_seeds then all_seeds else all_seeds ++ s ∷ [])

-- `retain`: what is older than 30 seconds goes.
unfoldable pub expire_pending : ℕ → Map Hash256 PendingCompact → Map Hash256 PendingCompact
expire_pending now [] = []
expire_pending now ((h, pc) ∷ pending) =
    let kept = expire_pending now pending in
    if ltb 30 (now - pc.created_at) then kept else (h, pc) ∷ kept

-- `retain`: peers that were not seen for five minutes go. `now - info.last_seen` wraps.
unfoldable pub prune_stale : ℕ → Map Bytes PeerInfo → Map Bytes PeerInfo
prune_stale now [] = []
prune_stale now ((addr, info) ∷ peers) =
    let kept = prune_stale now peers in
    if ltb 300 (now -u64 info.last_seen) then kept else (addr, info) ∷ kept

unfoldable pub is_candidate : ℕ → Bytes → List Bytes → PeerScoreboard → Bytes → Bool
unfolding has_hash
is_candidate now our_addr connected board addr =
    not (bytes_eq addr our_addr) && not (has_hash addr connected) && not (is_banned now addr board)

unfoldable pub candidates_in : ℕ → Bytes → List Bytes → PeerScoreboard → List Bytes → List Bytes
candidates_in now our_addr connected board [] = []
candidates_in now our_addr connected board (addr ∷ known) =
    let others = candidates_in now our_addr connected board known in
    if is_candidate now our_addr connected board addr then addr ∷ others else others

-- A peer listens on the address or has it.
unfoldable pub has_address : Bytes → Map Bytes PeerInfo → Bool
has_address addr [] = false
has_address addr ((_, p) ∷ peers) =
    bytes_eq p.listen_address addr || bytes_eq p.address addr || has_address addr peers

module _ {F S : Type 0} (env : Env F S) where
  -- The known addresses that are tried where there are few peers.
  unfoldable pub discovered : ℕ → NodeState F S → List Bytes
  unfolding candidates_in our_address listen_addresses
  discovered now node =
      let found =
        candidates_in now (our_address node.listen_port) (listen_addresses node.peers)
          node.scoreboard node.known_addresses in
      let peer_count = length node.peers in
      if ltb 0 peer_count && ltb peer_count max_outbound_peers then take 3 found else []

  -- One round of the maintenance task: the addresses that it connects to, the anchors that it
  -- writes if there are any, and the node afterwards.
  unfoldable pub maintain : ℕ → List Bytes → NodeState F S → List Bytes × List Bytes × NodeState F S
  unfolding expire_pending prune_stale listen_addresses
  maintain now seeds node =
      let cleaned = record node {
        scoreboard = cleanup now node.scoreboard;
        pending_compacts = expire_pending now node.pending_compacts;
      } in
      let retried = if nat_eq (length node.peers) 0 then seeds else [] in
      let pruned = record cleaned { peers = prune_stale now node.peers } in
      (retried ++ discovered now cleaned, take max_anchors (listen_addresses pruned.peers), pruned)

  -- `connect_to_peer`: whether it tries.
  unfoldable pub may_connect : ℕ → Bytes → NodeState F S → Bool
  unfolding has_address
  may_connect now addr node =
      not (is_banned now addr node.scoreboard) && not (has_address addr node.peers)

  -- The loop of `start_node`: whether a connection from outside is taken.
  unfoldable pub may_accept : ℕ → Bytes → NodeState F S → Bool
  may_accept now peer_addr node =
      not (is_banned now peer_addr node.scoreboard) && ltb (length node.peers) max_peers

  unfoldable pub broadcast_block : ℕ → Block → NodeState F S → Effects × NodeState F S
  broadcast_block now block node =
      let (r, node') = accept_block env now block node in
      elim r [ ok _ ↦ (relaying block, node') | err _ ↦ (silent, node') ]

  unfoldable pub get_node_info : NodeState F S → ℕ × Hash256 × ℕ × ℕ
  get_node_info node =
      (node.chain.height, node.chain.tip, length node.chain.utxo_set, length node.peers)
