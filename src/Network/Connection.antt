-- ===== src/Network/Connection.antt =====
-- network/mod.rs: `handle_connection`. What a peer sends is a list of results of `read_message`;
-- sending is taken to succeed.
pub mod Laws
use equiforge.Prelude.{
  ℕ, ◌+◌, Bool, true, false, not, List, [], ◌∷◌, ◌++◌, Bytes, Option, none, some, map, ltb,
  bytes_eq, is_empty, if◌then◌else◌, Result, ok, err, bytes_instance, ℕ_eq,
}
use equiforge.Prelude.Maps.{get, insert, remove}
use equiforge.Params.Rewards.{protocol_version}
use equiforge.Params.Peers.{min_protocol_version}
use equiforge.Types.{Hash256, null_hash, Transaction, Block}
use equiforge.Types.Externals.{header_hash, tx_hash}
use equiforge.Chain.State.{Env, Chain}
use equiforge.Chain.Headers.{block_at_height}
use equiforge.Network.Peers.{is_banned, ip_of, malformed_message}
use equiforge.Network.Message.{
  NetMessage, FrameError, version, version_ack, version_v2, compact_block, new_transaction,
  get_peers, ping,
}
use equiforge.Network.Node.{NodeState, PeerInfo, Effects, silent}
use equiforge.Network.Relay.{punish, resync}
use equiforge.Network.Compact.{has_hash}
use equiforge.Network.Sync.{decimal, on_pong}
use equiforge.Network.Handler.{handle_message, answering}

abbrev pub Received : Type 0
Received = Result FrameError NetMessage

pub data Event : Type 0 where
  received : Received → Event
  read_timeout : Event
  block_announced : Block → Event
  transaction_announced : Transaction → Event
  exchange_due : Event
  keepalive_due : Event

-- Whether the loop goes on, ends, or the task panics.
pub data Flow : Type 0 where
  goes_on ends panics : Flow

-- `split(':').next()` of the peer's address, and the port that it listens on
unfoldable pub listen_address_of : Bytes → ℕ → Bytes
unfolding decimal
listen_address_of peer_addr listen_port = ip_of peer_addr ++ (58 ∷ decimal 20 listen_port)

module _ {F S : Type 0} (env : Env F S) where
  unfoldable pub our_genesis : NodeState F S → Hash256
  our_genesis node = elim (block_at_height env node.chain 0) [
    | none ↦ null_hash
    | some b ↦ header_hash env.ext b.header
  ]

  unfoldable pub our_version : ℕ → NodeState F S → NetMessage
  our_version now node =
      version_v2 protocol_version node.chain.height node.chain.tip (our_genesis node) now
        node.listen_port

  -- `peers.insert` and `known.insert`
  unfoldable pub register : ℕ → Bytes → ℕ → ℕ → ℕ → NodeState F S → NodeState F S
  unfolding listen_address_of has_hash
  register now peer_addr v best_height listen_port node =
      let listen_addr = listen_address_of peer_addr listen_port in
      let info : PeerInfo = record {
        address = peer_addr;
        listen_address = listen_addr;
        version = v;
        best_height = best_height;
        last_seen = now;
        supports_v2 = true;
      } in
      let known = node.known_addresses in
      record node {
        peers = insert peer_addr info node.peers;
        known_addresses = if has_hash listen_addr known then known else listen_addr ∷ known;
      }

  -- The first message of the peer: its height, where it is let in.
  unfoldable pub greet : ℕ → Bytes → Received → NodeState F S → Option ℕ × NodeState F S
  greet now peer_addr (err e) node = (none, node)
  greet now peer_addr (ok (version_v2 v best_height best_hash genesis timestamp port)) node =
      if ltb v min_protocol_version
      then (none, node)
      else if not (bytes_eq genesis (our_genesis node))
      then (none, node)
      else (some best_height, register now peer_addr v best_height port node)
  greet now peer_addr (ok (version v best_height best_hash timestamp port)) node = (none, node)
  greet now peer_addr (ok _) node = (none, punish env now peer_addr malformed_message node)

  -- The answer to the second message; none is a time-out.
  unfoldable pub acknowledge : Option Received → List NetMessage
  acknowledge (some (ok (version v best_height best_hash timestamp port))) = version_ack ∷ []
  acknowledge (some (ok (version_v2 v best_height best_hash genesis timestamp port))) =
      version_ack ∷ []
  acknowledge _ = []

  -- The handshake: whether the loop is entered, and what is sent until then.
  unfoldable pub shake_hands :
      ℕ
      → Bytes
      → Received
      → Option Received
      → NodeState F S
      → Bool × List NetMessage × NodeState F S
  shake_hands now peer_addr first second node =
      let (greeted, node') = greet now peer_addr first node in
      let met : Bool × List NetMessage × NodeState F S = elim greeted [
        | none ↦ (false, our_version now node ∷ [], node')
        | some peer_height ↦
            let sync = if ltb node'.chain.height peer_height then resync env node' ∷ [] else [] in
            (
              true,
              our_version now node ∷ version_ack ∷ (acknowledge second ++ (sync ++ get_peers ∷ [])),
              node',
            )
      ] in
      if is_banned now peer_addr node.scoreboard then (false, [], node) else met

  -- The compact block for a block; none where the source indexes an empty list.
  unfoldable pub announce : Block → Option NetMessage
  announce b = elim b.transactions [
    | [] ↦ none
    | coinbase ∷ txs ↦ some (compact_block b.header (map (tx_hash env.ext) txs) coinbase)
  ]

  -- One round of the loop. A ping marks the peer as seen, as a pong does.
  unfoldable pub on_event : ℕ → Bytes → Event → NodeState F S → Flow × Effects × NodeState F S
  on_event now peer_addr (received (ok message)) node =
      let (effects, node') = handle_message env now peer_addr message node in
      ((if is_banned now peer_addr node'.scoreboard then ends else goes_on), effects, node')
  on_event now peer_addr (received (err e)) node = (ends, silent, node)
  on_event now peer_addr read_timeout node = (ends, silent, node)
  on_event now peer_addr (block_announced block) node = elim (announce block) [
    | none ↦ (panics, silent, node)
    | some message ↦ (goes_on, answering (message ∷ []), node)
  ]
  on_event now peer_addr (transaction_announced tx) node =
      (goes_on, answering (new_transaction tx ∷ []), node)
  on_event now peer_addr exchange_due node = (goes_on, answering (get_peers ∷ []), node)
  on_event now peer_addr keepalive_due node =
      (goes_on, answering (ping now ∷ []), on_pong env now peer_addr node)

  -- `state.peers.write().await.remove(&peer_addr)`
  unfoldable pub forget_peer : Bytes → NodeState F S → NodeState F S
  forget_peer peer_addr node = record node { peers = remove peer_addr node.peers }

  -- The loop, over events with their times, until it ends.
  unfoldable pub converse :
      Bytes → List (ℕ × Event) → NodeState F S → Flow × List Effects × NodeState F S
  converse peer_addr [] node = (goes_on, [], node)
  converse peer_addr ((now, event) ∷ events) node =
      let (flow, effects, node') = on_event now peer_addr event node in
      let (flow', further, later) = converse peer_addr events node' in
      elim flow [
        | goes_on ↦ (flow', effects ∷ further, later)
        | ends ↦ (ends, effects ∷ [], forget_peer peer_addr node')
        | panics ↦ (panics, effects ∷ [], node')
      ]
