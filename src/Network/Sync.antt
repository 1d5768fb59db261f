-- ===== src/Network/Sync.antt =====
-- network/mod.rs: the arms of `handle_message` for blocks and headers that were asked for, for the
-- addresses of peers, and for pongs. A handler is one step, though it lets go of the chain between
-- two chunks of blocks.
pub mod Chunks
pub mod Laws
pub mod Eviction
use equiforge.Prelude.{
  ℕ, zero, suc, ◌+◌, ◌/◌, ◌%◌, Bool, true, false, List, [], ◌∷◌, ◌++◌, Bytes, Option, none, some,
  length, map, ltb, nat_eq, is_empty, if◌then◌else◌, ◌||◌, max, take, drop, ◌+u64◌, ok, err,
  bytes_instance,
}
use equiforge.Prelude.Maps.{Map, get, insert}
use equiforge.Types.{Hash256, BlockHeader, Block}
use equiforge.Chain.State.{Env, Chain}
use equiforge.Chain.Accept.{add_block}
use equiforge.Chain.Headers.{validate_header_chain}
use equiforge.Chain.Persist.{set_batch_mode, flush_batch}
use equiforge.Network.Mempool.{Mempool, remove_confirmed}
use equiforge.Network.Message.{NetMessage, get_headers, get_block_data}
use equiforge.Network.Compact.{has_hash}
use equiforge.Network.Serve.{listen_addresses}
use equiforge.Network.Node.{NodeState, PeerInfo, Effects, silent, replying}
use equiforge.Network.Relay.{resync}

-- `slice.chunks(size)`; as many rounds as there are items are enough.
unfoldable pub chunks_in : {A : Type 0} → ℕ → ℕ → List A → List (List A)
chunks_in rounds size [] = []
chunks_in zero size (x ∷ xs) = []
chunks_in (suc rounds) size (x ∷ xs) =
    take size (x ∷ xs) ∷ chunks_in rounds size (drop size (x ∷ xs))

abbrev pub chunks : {A : Type 0} → ℕ → List A → List (List A)
chunks size xs = chunks_in (length xs) size xs

unfoldable pub last : {A : Type 0} → A → List A → A
last x [] = x
last x (y ∷ ys) = last y ys

-- A number in decimal; twenty digits are enough for 64 bits.
unfoldable pub decimal : ℕ → ℕ → Bytes
decimal zero n = []
decimal (suc digits) n =
    let front = decimal digits (n / 10) in (if ltb n 10 then [] else front) ++ (48 + n % 10) ∷ []

-- `format!("127.0.0.1:{}", state.listen_port)`
unfoldable pub our_address : ℕ → Bytes
unfolding decimal
our_address listen_port =
    (49 ∷ 50 ∷ 55 ∷ 46 ∷ 48 ∷ 46 ∷ 48 ∷ 46 ∷ 49 ∷ 58 ∷ []) ++ decimal 20 listen_port

-- The loop over the addresses of `Peers`; `known` is a set.
unfoldable pub learn : Bytes → List Bytes → List Bytes → List Bytes → List Bytes
unfolding has_hash
learn our_addr connected [] known = known
learn our_addr connected (addr ∷ addrs) known =
    let skipped = has_hash addr (our_addr ∷ []) || has_hash addr connected in
    let known' = if skipped || has_hash addr known then known else addr ∷ known in
    learn our_addr connected addrs known'

module _ {F S : Type 0} (env : Env F S) where
  -- `Peers`
  unfoldable pub on_peers : List Bytes → NodeState F S → NodeState F S
  unfolding learn our_address listen_addresses
  on_peers addrs node = record node {
    known_addresses =
        learn (our_address node.listen_port) (listen_addresses node.peers) addrs
          node.known_addresses;
  }

  -- `Pong`
  unfoldable pub on_pong : ℕ → Bytes → NodeState F S → NodeState F S
  on_pong now peer_addr node = elim (get node.peers peer_addr) [
    | none ↦ node
    | some peer ↦ record node {
      peers = insert peer_addr (record peer { last_seen = now }) node.peers;
    }
  ]

  -- `peer.best_height = peer.best_height.max(height)`
  unfoldable pub raise_height : Bytes → ℕ → NodeState F S → NodeState F S
  raise_height peer_addr height node = elim (get node.peers peer_addr) [
    | none ↦ node
    | some peer ↦ record node {
      peers =
          insert peer_addr (record peer { best_height = max peer.best_height height }) node.peers;
    }
  ]

  -- The blocks of one chunk, with the number of those accepted.
  unfoldable pub add_blocks : ℕ → List Block → ℕ × Chain F S → ℕ × Chain F S
  add_blocks now [] st = st
  add_blocks now (block ∷ blocks) (accepted, chain) =
      let (r, chain') = add_block env now block chain in
      let accepted' : ℕ = elim r [ ok _ ↦ accepted + 1 | err _ ↦ accepted ] in
      add_blocks now blocks (accepted', chain')

  -- The chunks, each of them a batch where `batch` says so.
  unfoldable pub add_chunks : Bool → ℕ → List (List Block) → ℕ × Chain F S → ℕ × Chain F S
  unfolding add_blocks
  add_chunks batch now [] st = st
  add_chunks batch now (chunk ∷ chunks) (accepted, chain) =
      let start = if batch then set_batch_mode env true chain else chain in
      let (accepted', chain') = add_blocks now chunk (accepted, start) in
      let end = if batch then flush_batch env (set_batch_mode env false chain') else chain' in
      add_chunks batch now chunks (accepted', end)

  unfoldable pub remove_all_confirmed : List Block → Mempool F → Mempool F
  remove_all_confirmed [] pool = pool
  remove_all_confirmed (block ∷ blocks) pool =
      remove_all_confirmed blocks (remove_confirmed env block pool)

  -- More is asked for where the peer has more.
  unfoldable pub continue_sync : Bytes → NodeState F S → List NetMessage
  continue_sync peer_addr node = elim (get node.peers peer_addr) [
    | none ↦ []
    | some peer ↦ if ltb node.chain.height peer.best_height then resync env node ∷ [] else []
  ]

  -- `if let Some(last_block) = blocks.last() { ... }`
  unfoldable pub raise_to_last : Bytes → List Block → NodeState F S → NodeState F S
  unfolding last raise_height
  raise_to_last peer_addr [] node = node
  raise_to_last peer_addr (block ∷ blocks) node =
      raise_height peer_addr (last block blocks).header.height node

  -- The blocks are added in chunks of 25, and the mempool forgets what all of them spend, if one of
  -- them was accepted.
  unfoldable pub take_blocks : Bool → ℕ → Bytes → List Block → NodeState F S → NodeState F S
  unfolding chunks_in add_chunks remove_all_confirmed raise_to_last
  take_blocks batch now peer_addr blocks node =
      let (accepted, chain) = add_chunks batch now (chunks 25 blocks) (0, node.chain) in
      let pool =
        if ltb 0 accepted then remove_all_confirmed blocks node.mempool else node.mempool in
      raise_to_last peer_addr blocks (record node { chain = chain; mempool = pool })

  -- `Blocks`: more than ten are a batch.
  unfoldable pub on_blocks : ℕ → Bytes → List Block → NodeState F S → Effects × NodeState F S
  on_blocks now peer_addr blocks node =
      let node' = take_blocks (ltb 10 (length blocks)) now peer_addr blocks node in
      (record { replies = continue_sync peer_addr node'; blocks = []; transactions = [] }, node')

  -- `BlockData`: always a batch.
  unfoldable pub on_block_data : ℕ → Bytes → List Block → NodeState F S → Effects × NodeState F S
  on_block_data now peer_addr blocks node =
      let node' = take_blocks true now peer_addr blocks node in
      (record { replies = continue_sync peer_addr node'; blocks = []; transactions = [] }, node')

  -- The hashes whose blocks are not there.
  unfoldable pub unknown_blocks : Chain F S → List Hash256 → List Hash256
  unknown_blocks chain [] = []
  unknown_blocks chain (h ∷ hashes) =
      let others = unknown_blocks chain hashes in
      elim (get chain.blocks h) [ none ↦ h ∷ others | some _ ↦ others ]

  -- The blocks are asked for by the hundred.
  unfoldable pub ask_blocks : List Hash256 → List NetMessage
  unfolding chunks_in
  ask_blocks hashes = map (λ chunk. get_block_data chunk) (chunks 100 hashes)

  unfoldable pub ask_headers : Bytes → ℕ → NodeState F S → List NetMessage
  ask_headers peer_addr last_height node = elim (get node.peers peer_addr) [
    | none ↦ []
    | some peer ↦
        if ltb last_height peer.best_height then get_headers (last_height +u64 1) 2000 ∷ [] else []
  ]

  -- `Headers`
  unfoldable pub on_headers : Bytes → List BlockHeader → NodeState F S → Effects × NodeState F S
  unfolding last
  on_headers peer_addr [] node = (silent, node)
  on_headers peer_addr (first ∷ headers) node =
      let last_height = (last first headers).height in
      let valid_hashes = validate_header_chain env node.chain (first ∷ headers) in
      let need_blocks = unknown_blocks node.chain valid_hashes in
      let node' = raise_height peer_addr last_height node in
      let asked : Effects = record {
        replies = ask_blocks need_blocks ++ ask_headers peer_addr last_height node';
        blocks = [];
        transactions = [];
      } in
      if is_empty valid_hashes then (replying (resync env node), node) else (asked, node')
